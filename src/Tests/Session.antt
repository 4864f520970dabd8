-- ===== src/Tests/Session.antt =====
-- src/transport/hdlc_session.c at concrete sessions, on a host that keeps what is sent.
use openspodes.Prelude.{
  ℕ, ◌+◌, ◌<◌, ◌^◌, ◌≡◌, refl, List, [], ◌∷◌, ◌++◌, length, arith, bit_and, some,
}
use openspodes.Err.{ok, err, state, timeout, done, ◌>>=◌}
use openspodes.Transport.Address.{HdlcAddress, hdlc_address_init, address_groups, address_octets}
use openspodes.Transport.Control.{Control, i_frame}
use openspodes.Transport.Control.RoundTrip.{Carries}
use openspodes.Transport.Frame.{HdlcFrame, zero_frame, hdlc_frame, hdlc_deframe}
use openspodes.Transport.Frame.RoundTrip.{received}
use openspodes.Session.{
  Session, connected, Host, Machine, init_client, init_server, with_session, enter_ndm,
}
use openspodes.Session.Timeout.{deadline_ms, remaining_ms, remaining-deadline-wrapped}
use openspodes.Session.Xid.{
  XidParams, zero_xid, encode_xid_params, decode_xid_params, decode_loop, params_start,
  negotiate_xid,
}
use openspodes.Session.Xid.RoundTrip.{IsXid, decode_xid-encode_xid}
use openspodes.Session.Xid.Fuel.{decode_xid-ends}
use openspodes.Session.Xid.Agreement.{Within, Positive, Agree, negotiate_xid-agreement}
use openspodes.Session.Send.{send_apdu, on_line, sent, llc_info, line_size, handle_disc}
use openspodes.Session.Line.{scan, candidate}
use openspodes.Session.Line.Cutting.{HasRoom, scan-HasRoom, scan-frame}
use openspodes.Session.Invariant.{IsSession}
use openspodes.Session.Receive.{handle_frame}
use openspodes.Session.Receive.Invariant.{session-kept}
use openspodes.Session.Delivery.{MaySend, Expects, apdu-delivered}
use openspodes.Session.Wait.{recv_apdu, with_rx, read_deadline}
use openspodes.Session.Wait.Buffered.{recv_apdu-buffered}
use openspodes.Tests.Transport.{sample, sample-IsFrame}

abbrev seconds : ℕ
seconds = 300

remaining-deadline-wrapped_example : remaining_ms 4294967010 (deadline_ms 4294967000 500) ≡ 0
remaining-deadline-wrapped_example =
    remaining-deadline-wrapped 4294967000 500 10 (omega arith) (omega arith) (omega arith)
      (omega arith) (omega arith)

abbrev client_limits : XidParams
client_limits = record { max_info_tx = 1280; max_info_rx = 1280; window_tx = 1; window_rx = 1 }

abbrev server_limits : XidParams
server_limits = record { max_info_tx = 512; max_info_rx = 256; window_tx = 1; window_rx = 3 }

client_limits-IsXid : IsXid client_limits
client_limits-IsXid = record {
  tx_fits = omega arith;
  rx_fits = omega arith;
  window_tx_fits = omega arith;
  window_rx_fits = omega arith;
}

server_limits-IsXid : IsXid server_limits
server_limits-IsXid = record {
  tx_fits = omega arith;
  rx_fits = omega arith;
  window_tx_fits = omega arith;
  window_rx_fits = omega arith;
}

client_limits-Positive : Positive client_limits
client_limits-Positive = record {
  tx_positive = omega arith;
  rx_positive = omega arith;
  window_tx_positive = omega arith;
  window_rx_positive = omega arith;
}

server_limits-Positive : Positive server_limits
server_limits-Positive = record {
  tx_positive = omega arith;
  rx_positive = omega arith;
  window_tx_positive = omega arith;
  window_rx_positive = omega arith;
}

decode_xid-encode_xid_example :
    decode_xid_params (encode_xid_params client_limits) zero_xid ≡ client_limits
decode_xid-encode_xid_example = decode_xid-encode_xid client_limits zero_xid client_limits-IsXid

-- The octets of a UA as the encoder writes them, with the group length.
abbrev short_field : List ℕ
short_field = 0x81 ∷ 0x80 ∷ 0x07 ∷ 0x05 ∷ 0x01 ∷ 0x80 ∷ 0x06 ∷ 0x02 ∷ 0x01 ∷ []

decode_xid-ends_example :
    decode_loop 10 short_field (params_start short_field) zero_xid
    ≡ some (decode_xid_params short_field zero_xid)
decode_xid-ends_example = decode_xid-ends short_field zero_xid (omega arith)

negotiate_xid-agreement_example :
    Agree
      (negotiate_xid
        (encode_xid_params (negotiate_xid (encode_xid_params client_limits) server_limits))
        client_limits)
      (negotiate_xid (encode_xid_params client_limits) server_limits)
negotiate_xid-agreement_example =
    negotiate_xid-agreement client_limits server_limits client_limits-IsXid server_limits-IsXid
      client_limits-Positive server_limits-Positive

-- The octets sent, the last first.
abbrev Wire : Type 0
Wire = List (List ℕ)

abbrev wire_host : Host Wire
wire_host = record {
  open_line = λ w. ok tt w;
  close_line = λ w. w;
  send_line = λ d w. ok tt (d ∷ w);
  recv_line = λ n t w. err timeout w;
  now_ms = λ w. (0, w);
  state_changed = λ old new w. w;
  timed_out = λ k n w. w;
}

abbrev client_session : Session
client_session = record (init_client 16 1) { state = connected; send_seq = 2; recv_seq = 5 }

abbrev server_session : Session
server_session = record (init_server 1 16) { state = connected; send_seq = 5; recv_seq = 2 }

client_session-IsSession : IsSession client_session
unfolding init_client
client_session-IsSession = (omega arith, omega arith, omega arith, omega arith, omega arith, same)
  where
    same : {p : XidParams} → Within p p
    same = record {
      tx_within = omega arith;
      rx_within = omega arith;
      window_tx_within = omega arith;
      window_rx_within = omega arith;
    }

abbrev client_end : Machine Wire
client_end = record { session = client_session; world = [] }

abbrev server_end : Machine Wire
server_end = record { session = server_session; world = [] }

session-kept_example :
    ((apdu : List ℕ)
      → length apdu + 3 < 2 ^ 32
      → IsSession (state (send_apdu wire_host apdu client_end)).session)
    × ((buf_size : ℕ) (f : HdlcFrame)
        → IsSession (state (handle_frame wire_host buf_size f client_end)).session)
    × ((src : HdlcAddress) → IsSession (state (handle_disc wire_host src client_end)).session)
    × IsSession (enter_ndm wire_host client_end).session
session-kept_example = session-kept wire_host client_end client_session-IsSession

scan-HasRoom_example : HasRoom (scan (0x7E ∷ 0xA0 ∷ 0x0E ∷ 0x03 ∷ []))
scan-HasRoom_example = scan-HasRoom (0x7E ∷ 0xA0 ∷ 0x0E ∷ 0x03 ∷ [])

scan-frame_example :
    (d : List ℕ) × (c : Control) × (hdlc_frame sample line_size ≡ done d)
    × (scan ((0x00 ∷ 0xFF ∷ []) ++ (d ++ (0x7E ∷ []))) ≡ candidate d (0x7E ∷ []))
    × (hdlc_deframe d zero_frame ≡ ok tt (received sample c))
    × (c.type ≡ i_frame)
    × Carries i_frame sample.control c
scan-frame_example =
    scan-frame sample (0x00 ∷ 0xFF ∷ []) (0x7E ∷ []) sample-IsFrame
      (ground arith, (ground arith, tt))

-- Two segments, the first of which comes twice.
abbrev first_half : HdlcFrame
first_half = record zero_frame {
  segmented = 1;
  destination = 0x03 ∷ [];
  source = 0x21 ∷ [];
  control = record { type = i_frame; poll_final = 1; send_seq = 2; recv_seq = 5 };
  info = 0xE6 ∷ 0xE6 ∷ 0x00 ∷ 0xC0 ∷ [];
}

abbrev second_half : HdlcFrame
second_half = record first_half {
  segmented = 0;
  control = record { type = i_frame; poll_final = 1; send_seq = 3; recv_seq = 5 };
  info = 0x01 ∷ 0xC1 ∷ [];
}

abbrev apdu : List ℕ
apdu = 0xC0 ∷ 0x01 ∷ 0xC1 ∷ []

apdu-MaySend : MaySend client_session apdu
unfolding init_client hdlc_address_init address_groups address_octets
apdu-MaySend = record {
  well_formed = client_session-IsSession;
  is_connected = refl;
  client_ok = omega arith;
  client_fits = omega arith;
  server_ok = omega arith;
  server_fits = omega arith;
  apdu_fits = omega arith;
}

server_end-Expects : Expects server_session client_session apdu 64
unfolding init_client init_server
server_end-Expects = record {
  same_seq = refl;
  same_ack = refl;
  nothing_kept = refl;
  takes = omega arith;
  buffer_fits = omega arith;
}

apdu-delivered_example :
    (d : List ℕ) × (f : HdlcFrame) × (hdlc_deframe d zero_frame ≡ ok tt f)
    × (send_apdu wire_host apdu client_end
        ≡ (on_line wire_host d >>= λ u m'.
              ok tt (with_session (sent (llc_info client_session apdu)) m'))
            client_end)
    × (handle_frame wire_host 64 f server_end
        ≡ ok apdu (
            with_session
              (λ t. record t { reassembly = []; recv_seq = bit_and (2 + 1) 0x07 })
              server_end))
apdu-delivered_example =
    apdu-delivered wire_host wire_host client_session [] server_end apdu 64 apdu-MaySend
      server_end-Expects

recv_apdu-buffered_example :
    (d : List ℕ) × (c : Control) × (hdlc_frame sample line_size ≡ done d)
    × (c.type ≡ i_frame)
    × Carries i_frame sample.control c
    × (recv_apdu wire_host 1 1 64 500 (with_rx ((0x00 ∷ []) ++ (d ++ (0x7E ∷ []))) server_end)
        ≡ some (
            handle_frame wire_host 64 (received sample c) (
              with_rx
                (0x7E ∷ [])
                (record server_end { world = (read_deadline wire_host 500 []).1 }))))
recv_apdu-buffered_example =
    recv_apdu-buffered wire_host server_end sample (0x00 ∷ []) (0x7E ∷ []) 0 0 64 500 sample-IsFrame
      (ground arith, tt) refl
