-- ===== src/Service/Initiate.antt =====
-- src/service/initiate.h and initiate.c: what client and meter propose and agree on when an
-- association is opened, and its encoding.
pub mod Parts
pub mod RoundTrip
use openspodes.Prelude.{
  ℕ, ◌+◌, ◌-◌, Bool, true, false, ◌||◌, List, [], ◌∷◌, length, take, replicate, ltb, ◌==◌, not,
  if◌then◌else◌, u8, bit_and, ◌>>>◌,
}
use openspodes.Prelude.Ints.{ℤ, pos, to_word, as_signed, i8_half}
use openspodes.Prelude.Slices.{blit}
use openspodes.Err.{Call, ok, err, invalid, ◌>>=◌, ◌>>◌, pure, fail, fail_if}
use openspodes.Buf.{Buf, buf_unread, octet, octets_at, skip}
use openspodes.Codec.Len.{read_octets}
use openspodes.Codec.Axdr.{axdr_read_u8, axdr_read_u16, axdr_write_u8, axdr_write_u16}

abbrev pub initiate_request_tag : ℕ
initiate_request_tag = 0x01

abbrev pub initiate_response_tag : ℕ
initiate_response_tag = 0x08

abbrev pub dedicated_key_max : ℕ
dedicated_key_max = 32

-- `dedicated_key` is the array, of which the first `dedicated_key_len` octets are the key.
pub record InitiateRequest : Type 0 where
  pub dedicated_key : List ℕ
  pub dedicated_key_len : ℕ
  pub has_dedicated_key : Bool
  pub response_allowed : Bool
  pub has_qos : Bool
  pub proposed_quality_of_service : ℤ
  pub proposed_dlms_version : ℕ
  pub proposed_conformance : ℕ
  pub client_max_receive_pdu_size : ℕ

pub record InitiateResponse : Type 0 where
  pub has_qos : Bool
  pub negotiated_quality_of_service : ℤ
  pub negotiated_dlms_version : ℕ
  pub negotiated_conformance : ℕ
  pub server_max_receive_pdu_size : ℕ
  pub vaa_name : ℕ

unfoldable pub push_conformance : ℕ → Call Buf (Unit {0})
push_conformance conformance = do
  axdr_write_u8 0x5F
  axdr_write_u8 0x1F
  axdr_write_u8 0x04
  axdr_write_u8 0x00
  axdr_write_u8 (u8 (bit_and (conformance >>> 16) 0xFF))
  axdr_write_u8 (u8 (bit_and (conformance >>> 8) 0xFF))
  axdr_write_u8 (u8 (bit_and conformance 0xFF))

-- `len` counts the octet of unused bits, which is skipped.
unfoldable pub take_bits : ℕ → Call Buf ℕ
take_bits len b =
    (do fail_if (ltb len 1 || ltb (buf_unread b) len) invalid; skip 1; read_octets (len - 1) 0) b

unfoldable pub take_conformance : Call Buf ℕ
take_conformance b =
    (do
      fail_if (ltb (buf_unread b) 3) invalid
      fail_if (not (octet b 0 == 0x5F) || not (octet b 1 == 0x1F)) invalid
      skip 2
      len ← axdr_read_u8
      take_bits len)
      b

-- `memset(req, 0, sizeof(*req))`
abbrev pub blank_request : InitiateRequest
blank_request = record {
  dedicated_key = replicate dedicated_key_max 0;
  dedicated_key_len = 0;
  has_dedicated_key = false;
  response_allowed = false;
  has_qos = false;
  proposed_quality_of_service = pos 0;
  proposed_dlms_version = 0;
  proposed_conformance = 0;
  client_max_receive_pdu_size = 0;
}

abbrev pub blank_response : InitiateResponse
blank_response = record {
  has_qos = false;
  negotiated_quality_of_service = pos 0;
  negotiated_dlms_version = 0;
  negotiated_conformance = 0;
  server_max_receive_pdu_size = 0;
  vaa_name = 0;
}

unfoldable pub initiate_request_default : InitiateRequest
initiate_request_default = record blank_request {
  response_allowed = true;
  proposed_dlms_version = 6;
  proposed_conformance = 0x007E1F;
  client_max_receive_pdu_size = 0x04B0;
}

unfoldable pub initiate_response_default : InitiateResponse
initiate_response_default = record blank_response {
  negotiated_dlms_version = 6;
  negotiated_conformance = 0x007E1F;
  server_max_receive_pdu_size = 0x0800;
  vaa_name = 0x0007;
}

-- `for (...) r = osp_axdr_write_u8(buf, req->dedicated_key[i]); if (r != OSP_OK) return r;`
unfoldable pub write_key : List ℕ → Call Buf (Unit {0})
write_key [] = pure tt
write_key (x ∷ xs) = axdr_write_u8 x >> write_key xs

unfoldable pub write_optional_key : InitiateRequest → Call Buf (Unit {0})
write_optional_key req =
    if req.has_dedicated_key
    then (do
      axdr_write_u8 0x01
      axdr_write_u8 req.dedicated_key_len
      write_key (take req.dedicated_key_len req.dedicated_key))
    else axdr_write_u8 0x00

unfoldable pub write_response_allowed : Bool → Call Buf (Unit {0})
write_response_allowed true = axdr_write_u8 0x00
write_response_allowed false = axdr_write_u8 0x01 >> axdr_write_u8 0x00

unfoldable pub write_optional_qos : Bool → ℤ → Call Buf (Unit {0})
write_optional_qos true qos = axdr_write_u8 0x01 >> axdr_write_u8 (to_word i8_half qos)
write_optional_qos false qos = axdr_write_u8 0x00

unfoldable pub initiate_request_encode : InitiateRequest → Call Buf (Unit {0})
initiate_request_encode req = do
  axdr_write_u8 initiate_request_tag
  write_optional_key req
  write_response_allowed req.response_allowed
  write_optional_qos req.has_qos req.proposed_quality_of_service
  axdr_write_u8 req.proposed_dlms_version
  push_conformance req.proposed_conformance
  axdr_write_u16 req.client_max_receive_pdu_size

-- `if (flag == 0) ... else if (flag == 1) ... else return OSP_ERR_INVALID;`
unfoldable pub by_flag : {A : Type 0} → Call Buf A → Call Buf A → Call Buf A
by_flag absent present = axdr_read_u8 >>= λ flag.
    if flag == 0x00 then absent else if flag == 0x01 then present else fail invalid

-- The key is copied to the front of the array of the request.
unfoldable pub copy_key : InitiateRequest → ℕ → Call Buf InitiateRequest
copy_key req len b =
    if ltb dedicated_key_max len || ltb (buf_unread b) len
    then err invalid b
    else (do
      skip len
      pure record req {
        dedicated_key = blit req.dedicated_key 0 (octets_at b len);
        dedicated_key_len = len;
        has_dedicated_key = true;
      })
        b

unfoldable pub read_key : InitiateRequest → Call Buf InitiateRequest
read_key req = axdr_read_u8 >>= copy_key req

unfoldable pub read_response_allowed : Call Buf Bool
read_response_allowed = by_flag (pure true) (axdr_read_u8 >>= λ val. pure (not (val == 0)))

unfoldable pub read_qos : Call Buf (Bool × ℤ)
read_qos = by_flag (pure (false, pos 0)) (axdr_read_u8 >>= λ q. pure (true, as_signed i8_half q))

unfoldable pub initiate_request_decode : Call Buf InitiateRequest
initiate_request_decode = do
  tag ← axdr_read_u8
  fail_if (not (tag == initiate_request_tag)) invalid
  req ← by_flag (pure blank_request) (read_key blank_request)
  response_allowed ← read_response_allowed
  qos ← read_qos
  version ← axdr_read_u8
  conformance ← take_conformance
  size ← axdr_read_u16
  pure record req {
    response_allowed = response_allowed;
    has_qos = qos.0;
    proposed_quality_of_service = qos.1;
    proposed_dlms_version = version;
    proposed_conformance = conformance;
    client_max_receive_pdu_size = size;
  }

unfoldable pub initiate_response_encode : InitiateResponse → Call Buf (Unit {0})
initiate_response_encode resp = do
  axdr_write_u8 initiate_response_tag
  write_optional_qos resp.has_qos resp.negotiated_quality_of_service
  axdr_write_u8 resp.negotiated_dlms_version
  push_conformance resp.negotiated_conformance
  axdr_write_u16 resp.server_max_receive_pdu_size
  axdr_write_u16 resp.vaa_name

unfoldable pub initiate_response_decode : Call Buf InitiateResponse
initiate_response_decode = do
  tag ← axdr_read_u8
  fail_if (not (tag == initiate_response_tag)) invalid
  qos ← read_qos
  version ← axdr_read_u8
  conformance ← take_conformance
  size ← axdr_read_u16
  vaa ← axdr_read_u16
  pure record {
    has_qos = qos.0;
    negotiated_quality_of_service = qos.1;
    negotiated_dlms_version = version;
    negotiated_conformance = conformance;
    server_max_receive_pdu_size = size;
    vaa_name = vaa;
  }
