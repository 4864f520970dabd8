-- ===== src/Tests/Service.antt =====
-- src/service on concrete APDUs.
use openspodes.Prelude.{
  ℕ, ◌≡◌, refl, Bool, true, false, List, [], ◌∷◌, ◌++◌, length, take, replicate, arith, some, not,
}
use openspodes.Prelude.Ints.{pos, negsuc}
use openspodes.Err.{Outcome, ok, err, invalid, ◌>>◌, ok-injective}
use openspodes.Buf.{Buf, IsBuf, buf_init, next, put, skip, octet, buf_unread, buf_free}
use openspodes.Buf.View.{content, pending, Reads, Writes}
use openspodes.Codec.Len.{
  axdr_push_length, axdr_read_length, dlms_read_len, dlms_write_len, read_len_rest,
}
use openspodes.Codec.Len.Format.{len_octets}
use openspodes.Codec.Axdr.{axdr_read_u8, axdr_read_u16, axdr_write_u8, axdr_write_u16}
use openspodes.Service.Gbt.{
  Gbt, gbt_encode, gbt_decode, control_octet, read_data, read_element, write_data,
}
use openspodes.Service.Gbt.Block.{IsGbt, header, payload, gbt_octets, received, gbt_decode-encode}
use openspodes.Service.Gbt.Truncated.{gbt_decode_truncated, gbt_encode_truncated}
use openspodes.Service.Gbt.Transfer.{
  sending_starts, Line, Scratch, Job, Sending, gbt_transport_send, wait_for_peer, block_from,
  block_in, gbt_send_block, gbt_send_ack, gbt_recv_block,
}
use openspodes.Service.Gbt.Transfer.Pieces.{IsJob, InStep, block_from-IsGbt, block_from-IsPiece}
use openspodes.Service.Gbt.Transfer.Wire.{BringsPieces}
use openspodes.Service.Gbt.Transfer.Ends.{gbt_transport_send-ends, wait_for_peer-stays}
use openspodes.Service.Gbt.Receive.{
  gbt_transport_recv, recv_loop, on_block, on_gap, on_duplicate, on_expected, more,
  receiving_starts,
}
use openspodes.Service.Gbt.Receive.Safety.{gbt_transport_recv-Safe, taken}
use openspodes.Service.Gbt.Delivery.{Fifo, fifo, Roomy, gbt_transport-delivers}
use openspodes.Service.Gbt.Confirmed.{ack, first_ack-refused}
use openspodes.Service.Initiate.{
  InitiateRequest, InitiateResponse, initiate_request_encode, initiate_request_decode,
  initiate_response_encode, initiate_response_decode,
}
use openspodes.Service.Initiate.Parts.{IsRequest}
use openspodes.Service.Initiate.RoundTrip.{
  request_octets, transmitted, initiate_request_decode-encode, IsResponse, response_octets,
  answered, initiate_response_decode-encode,
}

abbrev blank : Buf
blank = buf_init (replicate 64 0) 64

blank-IsBuf : IsBuf blank
unfolding buf_init
blank-IsBuf = record {
  ordered = omega arith;
  within = omega arith;
  backed = refl;
  narrow = omega arith;
}

abbrev letters : List ℕ
letters = 0x61 ∷ 0x62 ∷ 0x63 ∷ []

-- Block 1 of a transfer with a window, not the last.
abbrev first_block : Gbt
first_block = record {
  last_block = false;
  streaming = false;
  window = 2;
  block_number = 1;
  block_number_ack = 0;
  block_data = letters;
  block_data_len = 3;
}

first_block-IsGbt : IsGbt first_block
first_block-IsGbt = record {
  window_fits = omega arith;
  number_fits = omega arith;
  ack_fits = omega arith;
  data_fits = omega arith;
  data_there = omega arith;
}

gbt_decode-encode_example :
    (c : Buf) × ((gbt_encode first_block >> gbt_decode (replicate 256 0)) blank
      ≡ ok (received (replicate 256 0) first_block) c)
    × (payload (received (replicate 256 0) first_block) ≡ payload first_block)
    × (content c ≡ content blank ++ gbt_octets first_block)
    × (pending c ≡ [])
unfolding len_octets buf_init
gbt_decode-encode_example =
    gbt_decode-encode first_block (replicate 256 0) blank first_block-IsGbt refl blank-IsBuf refl
      (omega arith)

-- The block above, cut off after its first octet.
abbrev cut_block : Buf
cut_block = record {
  buf = header first_block ++ (0x61 ∷ []);
  size = length (header first_block ++ (0x61 ∷ []));
  rd = 0;
  wr = length (header first_block ++ (0x61 ∷ []));
}

cut_block-IsBuf : IsBuf cut_block
unfolding len_octets
cut_block-IsBuf = record {
  ordered = omega arith;
  within = omega arith;
  backed = refl;
  narrow = omega arith;
}

gbt_decode_truncated_example :
    Reads
      (gbt_decode (0x7A ∷ 0x7A ∷ 0x7A ∷ []))
      cut_block
      (record first_block { block_data = 0x61 ∷ 0x7A ∷ 0x7A ∷ [] })
      []
unfolding len_octets control_octet
gbt_decode_truncated_example =
    gbt_decode_truncated first_block (0x61 ∷ []) (0x7A ∷ 0x7A ∷ 0x7A ∷ []) cut_block
      first_block-IsGbt (omega arith) cut_block-IsBuf refl

-- Room for the header and one octet.
abbrev eight : Buf
eight = buf_init (replicate 8 0) 8

eight-IsBuf : IsBuf eight
unfolding buf_init
eight-IsBuf = record {
  ordered = omega arith;
  within = omega arith;
  backed = refl;
  narrow = omega arith;
}

gbt_encode_truncated_example :
    Writes (gbt_encode first_block) eight (header first_block ++ take 1 (payload first_block))
unfolding len_octets buf_init
gbt_encode_truncated_example =
    gbt_encode_truncated first_block 1 eight first_block-IsGbt eight-IsBuf refl

-- Three octets in blocks of two.
abbrev job : Job
job = record { apdu = letters; block_payload_max = 2; window = 0; streaming = false }

job-IsJob : IsJob job
job-IsJob = record {
  some_octets = omega arith;
  few_octets = omega arith;
  some_room = omega arith;
  little_room = omega arith;
}

abbrev scratch : Scratch
scratch = record { tx_scratch = replicate 32 0; rx_scratch_size = 32; timeout_ms = 1000 }

scratch-Roomy : Roomy scratch job
scratch-Roomy = record { tx_room = omega arith; rx_room = omega arith; narrow = omega arith }

gbt_transport-delivers_example :
    (q : Fifo) × (gbt_transport_send fifo scratch job 3 [] ≡ some (ok tt q))
    × (gbt_transport_recv fifo scratch 16 [] 3 q ≡ some (ok letters []))
gbt_transport-delivers_example =
    gbt_transport-delivers scratch scratch job 16 job-IsJob refl scratch-Roomy scratch-Roomy
      (omega arith) (omega arith)

-- A transport that brings nothing.
gbt_transport_send-ends_example :
    (r : Outcome Fifo (Unit {0})) × (gbt_transport_send fifo scratch
        (record job { window = 1 })
        3
        []
      ≡ some r)
gbt_transport_send-ends_example =
    gbt_transport_send-ends fifo scratch (record job { window = 1 }) []

-- An acknowledgement of block 1 on its way.
abbrev acknowledgement : Gbt
acknowledgement = record {
  last_block = true;
  streaming = false;
  window = 1;
  block_number = 1;
  block_number_ack = 1;
  block_data = replicate 256 0;
  block_data_len = 0;
}

abbrev sent_one : Sending
sent_one = record { offset = 2; block_number = 2; blocks_in_window = 1 }

ack_read : gbt_recv_block fifo scratch (gbt_octets acknowledgement ∷ []) ≡ ok acknowledgement []
unfolding gbt_recv_block block_in gbt_decode axdr_read_u8 axdr_read_u16 axdr_read_length
    dlms_read_len read_len_rest read_data len_octets control_octet next skip octet buf_unread
ack_read = refl

wait_for_peer-stays_example :
    wait_for_peer fifo scratch job sent_one (gbt_octets acknowledgement ∷ [])
    ≡ ok (record sent_one { blocks_in_window = 0 }) []
wait_for_peer-stays_example =
    wait_for_peer-stays fifo scratch job sent_one acknowledgement (gbt_octets acknowledgement ∷ [])
      [] (omega arith) (omega arith) ack_read

-- Three blocks of one octet, and a window of two.
abbrev confirmed_job : Job
confirmed_job = record job { window = 2; block_payload_max = 1 }

confirmed_job-IsJob : IsJob confirmed_job
confirmed_job-IsJob = record {
  some_octets = omega arith;
  few_octets = omega arith;
  some_room = omega arith;
  little_room = omega arith;
}

-- A transport that takes everything and always brings the same answer.
abbrev answering : Line (Unit {0})
answering = record {
  send_apdu = λ d v. ok tt v;
  recv_apdu = λ size timeout_ms v. ok (gbt_octets (ack 2 1)) v;
  stack = λ v. replicate 256 0;
}

abbrev first_sent : Gbt
first_sent = received (replicate 256 0) (block_from confirmed_job sending_starts)

first_ack-refused_example :
    (on_block fifo scratch 16 first_sent receiving_starts []
      ≡ ok (more (taken receiving_starts first_sent)) (gbt_octets (ack 2 1) ∷ []))
    × ((w' : Unit {0}) × (gbt_transport_send answering scratch confirmed_job 3 tt
          ≡ some (err invalid w')))
first_ack-refused_example =
    first_ack-refused answering scratch scratch confirmed_job (replicate 256 0) 16 3 tt
      confirmed_job-IsJob (omega arith) (omega arith) (omega arith) (omega arith) (omega arith)
      (omega arith) (omega arith) (omega arith) (λ d v. (tt, refl)) (λ v. (tt, refl)) (omega arith)

abbrev request : InitiateRequest
request = record {
  dedicated_key = replicate 32 7;
  dedicated_key_len = 2;
  has_dedicated_key = true;
  response_allowed = false;
  has_qos = true;
  proposed_quality_of_service = negsuc 0;
  proposed_dlms_version = 6;
  proposed_conformance = 0x007E1F;
  client_max_receive_pdu_size = 0x04B0;
}

request-IsRequest : IsRequest request
request-IsRequest = record {
  key_fits = omega arith;
  key_there = refl;
  qos_fits = omega arith;
  conformance_fits = omega arith;
  size_fits = omega arith;
}

initiate_request_decode-encode_example :
    (c : Buf) × ((initiate_request_encode request >> initiate_request_decode) blank
      ≡ ok (transmitted request) c)
    × (content c ≡ content blank ++ request_octets request)
    × (pending c ≡ [])
unfolding buf_init
initiate_request_decode-encode_example =
    initiate_request_decode-encode request blank request-IsRequest blank-IsBuf refl (omega arith)

abbrev response : InitiateResponse
response = record {
  has_qos = false;
  negotiated_quality_of_service = pos 0;
  negotiated_dlms_version = 6;
  negotiated_conformance = 0x007E1F;
  server_max_receive_pdu_size = 0x0800;
  vaa_name = 7;
}

response-IsResponse : IsResponse response
response-IsResponse = record {
  qos_fits = omega arith;
  conformance_fits = omega arith;
  size_fits = omega arith;
  vaa_fits = omega arith;
}

initiate_response_decode-encode_example :
    (c : Buf) × ((initiate_response_encode response >> initiate_response_decode) blank
      ≡ ok (answered response) c)
    × (content c ≡ content blank ++ response_octets response)
    × (pending c ≡ [])
unfolding buf_init
initiate_response_decode-encode_example =
    initiate_response_decode-encode response blank response-IsResponse blank-IsBuf refl
      (omega arith)

-- A transport that brings the second of two blocks first, then the first, and so on.
abbrev first : Sending
first = record { offset = 0; block_number = 1; blocks_in_window = 0 }

abbrev second : Sending
second = record { offset = 2; block_number = 2; blocks_in_window = 0 }

abbrev brought : Bool → Gbt
brought true = block_from job first
brought false = block_from job second

abbrev swapping : Line Bool
swapping = record {
  send_apdu = λ x w. ok tt w;
  recv_apdu = λ size timeout_ms w. ok (gbt_octets (brought w)) (not w);
  stack = λ w. replicate 256 0;
}

first-InStep : InStep job first
first-InStep = record { numbered = omega arith; counted = omega arith; before = omega arith }

second-InStep : InStep job second
second-InStep = record { numbered = omega arith; counted = omega arith; before = omega arith }

swapping-BringsPieces : BringsPieces swapping scratch letters 2
unfolding block_from len_octets
swapping-BringsPieces true w' x e = (
  brought true,
  block_from-IsGbt job job-IsJob first first-InStep (omega arith),
  block_from-IsPiece job job-IsJob first first-InStep (omega arith),
  (ok-injective e).0,
  omega arith,
)
swapping-BringsPieces false w' x e = (
  brought false,
  block_from-IsGbt job job-IsJob second second-InStep (omega arith),
  block_from-IsPiece job job-IsJob second second-InStep (omega arith),
  (ok-injective e).0,
  omega arith,
)

received_three : gbt_transport_recv swapping scratch 16 [] 3 false ≡ some (ok letters true)
unfolding gbt_transport_recv recv_loop on_block on_gap on_duplicate on_expected gbt_send_ack
    gbt_send_block gbt_encode gbt_recv_block block_in gbt_decode axdr_read_u8 axdr_read_u16
    axdr_read_length dlms_read_len read_len_rest read_data read_element axdr_write_u8 axdr_write_u16
    axdr_push_length dlms_write_len write_data block_from len_octets control_octet buf_init next put
    skip octet buf_unread buf_free
received_three = refl

gbt_transport_recv-Safe_example : letters ≡ letters
gbt_transport_recv-Safe_example =
    gbt_transport_recv-Safe swapping scratch 16 letters 2 (omega arith) (omega arith) (omega arith)
      (λ w. refl) swapping-BringsPieces 3 false true letters received_three
