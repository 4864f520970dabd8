-- ===== src/Service/Initiate/RoundTrip.antt =====
-- What is proposed and what is agreed are read back as they were written.
use openspodes.Prelude.{ℕ, ◌+◌, ◌^◌, ◌≤◌, ◌<◌, ◌≡◌, List, [], ◌∷◌, ◌++◌, length, if◌then◌else◌}
use openspodes.Prelude.Ints.{pos, IsSigned, i8_half}
use openspodes.Err.{ok, ◌>>◌}
use openspodes.Buf.{Buf, IsBuf}
use openspodes.Buf.View.{pending, content}
use openspodes.Codec.Wire.{Emits, Takes, Emits-then, Takes-then, Takes-last, Emits-Takes}
use openspodes.Codec.Wire.Parts.{u16_octets, Emits-u16, Takes-u16, u8-then, then-u8}
use openspodes.Service.Initiate.{
  InitiateRequest, InitiateResponse, initiate_request_encode, initiate_request_decode,
  initiate_response_encode, initiate_response_decode,
}
use openspodes.Service.Initiate.Parts.{
  IsRequest, conformance_octets, key_octets, allowed_octets, qos_octets, with_key,
  Emits-conformance, Takes-conformance, Emits-optional_key, Takes-key, Emits-allowed, Takes-allowed,
  Emits-qos, Takes-qos,
}

-- What both end with: the version, the conformance and a size.
abbrev tail_octets : ℕ → ℕ → List ℕ → List ℕ
tail_octets version conformance more = version ∷ (conformance_octets conformance ++ more)

abbrev pub request_octets : InitiateRequest → List ℕ
request_octets req =
    0x01
    ∷ (key_octets req
        ++ (allowed_octets req.response_allowed
            ++ (qos_octets req.has_qos req.proposed_quality_of_service
                ++ tail_octets req.proposed_dlms_version req.proposed_conformance
                    (u16_octets req.client_max_receive_pdu_size))))

-- What is read of a request: an absent key is no key, an absent quality of service is 0.
abbrev pub transmitted : InitiateRequest → InitiateRequest
transmitted req = record (with_key req) {
  response_allowed = req.response_allowed;
  has_qos = req.has_qos;
  proposed_quality_of_service = if req.has_qos then req.proposed_quality_of_service else pos 0;
  proposed_dlms_version = req.proposed_dlms_version;
  proposed_conformance = req.proposed_conformance;
  client_max_receive_pdu_size = req.client_max_receive_pdu_size;
}

Emits-request :
    (req : InitiateRequest)
    → IsRequest req
    → Emits (initiate_request_encode req) (request_octets req)
unfolding initiate_request_encode
Emits-request req v =
    let conformance = conformance_octets req.proposed_conformance in
    let size = u16_octets req.client_max_receive_pdu_size in
    let tail = tail_octets req.proposed_dlms_version req.proposed_conformance size in
    let qos = qos_octets req.has_qos req.proposed_quality_of_service in
    let allowed = allowed_octets req.response_allowed in
    u8-then 0x01 (key_octets req ++ (allowed ++ (qos ++ tail))) (
      Emits-then (key_octets req) (allowed ++ (qos ++ tail)) (Emits-optional_key req) (
        Emits-then allowed (qos ++ tail) (Emits-allowed req.response_allowed) (
          Emits-then qos tail (Emits-qos req.has_qos req.proposed_quality_of_service) (
            u8-then req.proposed_dlms_version (conformance ++ size) (
              Emits-then conformance size
                (Emits-conformance req.proposed_conformance v.conformance_fits)
                (Emits-u16 req.client_max_receive_pdu_size v.size_fits))))))

Takes-request :
    (req : InitiateRequest)
    → IsRequest req
    → Takes initiate_request_decode (request_octets req) (transmitted req)
unfolding initiate_request_decode
Takes-request req v =
    let conformance = conformance_octets req.proposed_conformance in
    let size = u16_octets req.client_max_receive_pdu_size in
    let tail = tail_octets req.proposed_dlms_version req.proposed_conformance size in
    let qos = qos_octets req.has_qos req.proposed_quality_of_service in
    let allowed = allowed_octets req.response_allowed in
    then-u8 0x01 _ (key_octets req ++ (allowed ++ (qos ++ tail))) (
      Takes-then _ (key_octets req) (allowed ++ (qos ++ tail)) (Takes-key req v) (
        Takes-then _ allowed (qos ++ tail) (Takes-allowed req.response_allowed) (
          Takes-then _ qos tail (Takes-qos req.has_qos req.proposed_quality_of_service v.qos_fits) (
            then-u8 req.proposed_dlms_version _ (conformance ++ size) (
              Takes-then _ conformance size
                (Takes-conformance req.proposed_conformance v.conformance_fits)
                (Takes-last size _ (Takes-u16 req.client_max_receive_pdu_size v.size_fits)))))))

-- A request whose fields fit is read back from a buffer with nothing left to read and room for it:
-- its flags, its key if it has one, its quality of service if it has one, the version, the
-- conformance of 24 bits and the size.
pub initiate_request_decode-encode :
    (req : InitiateRequest) (b : Buf)
    → IsRequest req
    → IsBuf b
    → pending b ≡ []
    → b.wr + length (request_octets req) ≤ b.size
    → (c : Buf) × ((initiate_request_encode req >> initiate_request_decode) b
        ≡ ok (transmitted req) c)
      × (content c ≡ content b ++ request_octets req)
      × (pending c ≡ [])
initiate_request_decode-encode req b v vb none_left room =
    Emits-Takes (request_octets req) (Emits-request req v) (Takes-request req v) b vb none_left room

-- A response whose fields fit their fields on the wire.
pub record IsResponse (resp : InitiateResponse) : Type 0 where
  pub qos_fits : IsSigned i8_half resp.negotiated_quality_of_service
  pub conformance_fits : resp.negotiated_conformance < 2 ^ 24
  pub size_fits : resp.server_max_receive_pdu_size < 2 ^ 16
  pub vaa_fits : resp.vaa_name < 2 ^ 16

abbrev pub response_octets : InitiateResponse → List ℕ
response_octets resp =
    0x08
    ∷ (qos_octets resp.has_qos resp.negotiated_quality_of_service
        ++ tail_octets resp.negotiated_dlms_version resp.negotiated_conformance
            (u16_octets resp.server_max_receive_pdu_size ++ u16_octets resp.vaa_name))

abbrev pub answered : InitiateResponse → InitiateResponse
answered resp = record resp {
  negotiated_quality_of_service =
      if resp.has_qos then resp.negotiated_quality_of_service else pos 0;
}

module _ (resp : InitiateResponse) (v : IsResponse resp) where
  Emits-response : Emits (initiate_response_encode resp) (response_octets resp)
  unfolding initiate_response_encode
  Emits-response =
      let conformance = conformance_octets resp.negotiated_conformance in
      let size = u16_octets resp.server_max_receive_pdu_size in
      let vaa = u16_octets resp.vaa_name in
      let qos = qos_octets resp.has_qos resp.negotiated_quality_of_service in
      let tail =
        tail_octets resp.negotiated_dlms_version resp.negotiated_conformance (size ++ vaa) in
      u8-then 0x08 (qos ++ tail) (
        Emits-then qos tail (Emits-qos resp.has_qos resp.negotiated_quality_of_service) (
          u8-then resp.negotiated_dlms_version (conformance ++ (size ++ vaa)) (
            Emits-then conformance (size ++ vaa)
              (Emits-conformance resp.negotiated_conformance v.conformance_fits)
              (Emits-then size vaa (Emits-u16 resp.server_max_receive_pdu_size v.size_fits)
                (Emits-u16 resp.vaa_name v.vaa_fits)))))

  Takes-response : Takes initiate_response_decode (response_octets resp) (answered resp)
  unfolding initiate_response_decode
  Takes-response =
      let conformance = conformance_octets resp.negotiated_conformance in
      let size = u16_octets resp.server_max_receive_pdu_size in
      let vaa = u16_octets resp.vaa_name in
      let qos = qos_octets resp.has_qos resp.negotiated_quality_of_service in
      let tail =
        tail_octets resp.negotiated_dlms_version resp.negotiated_conformance (size ++ vaa) in
      then-u8 0x08 _ (qos ++ tail) (
        Takes-then _ qos tail (Takes-qos resp.has_qos resp.negotiated_quality_of_service v.qos_fits)
          (then-u8 resp.negotiated_dlms_version _ (conformance ++ (size ++ vaa)) (
            Takes-then _ conformance (size ++ vaa)
              (Takes-conformance resp.negotiated_conformance v.conformance_fits)
              (Takes-then _ size vaa (Takes-u16 resp.server_max_receive_pdu_size v.size_fits)
                (Takes-last vaa _ (Takes-u16 resp.vaa_name v.vaa_fits))))))

-- A response whose fields fit is read back from a buffer with nothing left to read and room for
-- it: its quality of service if it has one, the version, the conformance of 24 bits, the size and
-- the name.
pub initiate_response_decode-encode :
    (resp : InitiateResponse) (b : Buf)
    → IsResponse resp
    → IsBuf b
    → pending b ≡ []
    → b.wr + length (response_octets resp) ≤ b.size
    → (c : Buf) × ((initiate_response_encode resp >> initiate_response_decode) b
        ≡ ok (answered resp) c)
      × (content c ≡ content b ++ response_octets resp)
      × (pending c ≡ [])
initiate_response_decode-encode resp b v vb none_left room =
    Emits-Takes (response_octets resp) (Emits-response resp v) (Takes-response resp v) b vb
      none_left room
