-- ===== src/Session/Xid/Agreement.antt =====
-- What `negotiate_xid` settles on, at one end and between the two.
use openspodes.Prelude.{ℕ, ◌≤◌, ◌<◌, ◌≡◌, refl, arith, List}
use openspodes.Session.Xid.{XidParams, zero_xid, encode_xid_params, negotiate_xid, lower_to}
use openspodes.Session.Xid.RoundTrip.{IsXid, decode_xid-encode_xid}

-- No limit of the first is above that of the second.
pub record Within (p q : XidParams) : Type 0 where
  pub tx_within : p.max_info_tx ≤ q.max_info_tx
  pub rx_within : p.max_info_rx ≤ q.max_info_rx
  pub window_tx_within : p.window_tx ≤ q.window_tx
  pub window_rx_within : p.window_rx ≤ q.window_rx

-- Every limit is at least one.
pub record Positive (p : XidParams) : Type 0 where
  pub tx_positive : 0 < p.max_info_tx
  pub rx_positive : 0 < p.max_info_rx
  pub window_tx_positive : 0 < p.window_tx
  pub window_rx_positive : 0 < p.window_rx

-- Whatever the peer's information field holds, negotiation raises no limit.
pub negotiate_xid-Within : (info : List ℕ) (xid : XidParams) → Within (negotiate_xid info xid) xid
unfolding negotiate_xid
negotiate_xid-Within info xid = record {
  tx_within = ground arith;
  rx_within = ground arith;
  window_tx_within = ground arith;
  window_rx_within = ground arith;
}

-- Nor does it bring a limit that is at least one to zero, whatever the field holds.
pub negotiate_xid-Positive :
    (info : List ℕ) (xid : XidParams) → Positive xid → Positive (negotiate_xid info xid)
unfolding negotiate_xid
negotiate_xid-Positive info xid h = record {
  tx_positive = ground arith;
  rx_positive = ground arith;
  window_tx_positive = ground arith;
  window_rx_positive = ground arith;
}

-- On the octets that the other end's encoder writes.
negotiated : XidParams → XidParams → XidParams
negotiated peer own = record {
  max_info_tx = lower_to peer.max_info_rx own.max_info_tx;
  max_info_rx = lower_to peer.max_info_tx own.max_info_rx;
  window_tx = lower_to peer.window_rx own.window_tx;
  window_rx = lower_to peer.window_tx own.window_rx;
}

negotiate_xid-encode :
    (peer own : XidParams)
    → IsXid peer
    → negotiate_xid (encode_xid_params peer) own ≡ negotiated peer own
unfolding negotiate_xid negotiated encode_xid_params
negotiate_xid-encode peer own h = rw (decode_xid-encode_xid peer zero_xid h) refl

-- Where what one end may send is what the other takes.
pub record Agree (p q : XidParams) : Type 0 where
  pub info_out : p.max_info_tx ≡ q.max_info_rx
  pub info_in : p.max_info_rx ≡ q.max_info_tx
  pub window_out : p.window_tx ≡ q.window_rx
  pub window_in : p.window_rx ≡ q.window_tx

negotiated-Agree :
    (client server : XidParams)
    → Positive client
    → Positive server
    → Agree (negotiated (negotiated client server) client) (negotiated client server)
unfolding negotiated
negotiated-Agree client server h k = record {
  info_out = ground arith;
  info_in = ground arith;
  window_out = ground arith;
  window_in = ground arith;
}

negotiated-IsXid : (peer own : XidParams) → IsXid own → IsXid (negotiated peer own)
unfolding negotiated
negotiated-IsXid peer own h = record {
  tx_fits = ground arith;
  rx_fits = ground arith;
  window_tx_fits = ground arith;
  window_rx_fits = ground arith;
}

-- A client and a server whose limits are at least one and fit their types exchange them: the server
-- negotiates on what the client's encoder wrote, and the client on what the server's encoder wrote
-- then. After that the two agree: what each may send is what the other takes.
pub negotiate_xid-agreement :
    (client server : XidParams)
    → IsXid client
    → IsXid server
    → Positive client
    → Positive server
    → let answer = negotiate_xid (encode_xid_params client) server in
      Agree (negotiate_xid (encode_xid_params answer) client) answer
negotiate_xid-agreement client server hc hs pc ps =
    let first = negotiate_xid-encode client server hc in
    let second =
      negotiate_xid-encode (negotiated client server) client (negotiated-IsXid client server hs) in
    rw (first, second) (negotiated-Agree client server pc ps)
