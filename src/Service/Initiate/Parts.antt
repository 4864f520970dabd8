-- ===== src/Service/Initiate/Parts.antt =====
-- The parts of a request and of a response: what is written for each, and that it is read back.
use openspodes.Prelude.{
  ℕ, ◌+◌, ◌/◌, ◌%◌, ◌^◌, ◌≤◌, ◌<◌, ◌≡◌, ap, ◌∙◌, subst, Bool, true, false, List, [], ◌∷◌, ◌++◌,
  length, length-append, take, arith, if◌then◌else◌, u8, bit_and, ◌>>>◌, length-take, Bool-cases,
  inl, inr,
}
use openspodes.Prelude.Bits.{and_mask}
use openspodes.Prelude.Ints.{ℤ, pos, to_word, as_signed-to_word, IsSigned, i8_half}
use openspodes.Prelude.Slices.{blit, take-length-append}
use openspodes.Err.{◌>>=◌, pure}
use openspodes.Buf.{buf_unread, octet, octets_at, skip}
use openspodes.Buf.View.{Reads, pending, octets_at-pending, buf_unread-pending}
use openspodes.Buf.Compose.{Reads-then, skip_over}
use openspodes.Codec.Len.{read_octets}
use openspodes.Codec.Len.RoundTrip.{read_octets_lem, number}
use openspodes.Codec.Axdr.{axdr_read_u8}
use openspodes.Codec.Axdr.RoundTrip.{octet_at}
use openspodes.Codec.Wire.{Emits, Takes, Emits-nothing, Takes-pure}
use openspodes.Codec.Wire.Parts.{Emits-u8, u8-then, then-u8}
use openspodes.Service.Initiate.{
  InitiateRequest, push_conformance, take_conformance, take_bits, write_key, write_optional_key,
  write_response_allowed, write_optional_qos, by_flag, read_key, copy_key, read_response_allowed,
  read_qos, blank_request, dedicated_key_max,
}

-- The conformance block: its tag, the count of octets, the octet of unused bits, 24 bits.
abbrev pub conformance_octets : ℕ → List ℕ
conformance_octets c = 0x5F ∷ 0x1F ∷ 0x04 ∷ 0x00 ∷ (c / 2 ^ 16) ∷ (c / 256 % 256) ∷ (c % 256) ∷ []

pub Emits-conformance : (c : ℕ) → c < 2 ^ 24 → Emits (push_conformance c) (conformance_octets c)
unfolding push_conformance
Emits-conformance c h =
    let e : u8 (bit_and (c >>> 16) 0xFF) ≡ c / 2 ^ 16 = omega (arith, and_mask 8 (c >>> 16)) in
    let f : u8 (bit_and (c >>> 8) 0xFF) ≡ c / 256 % 256 = omega (arith, and_mask 8 (c >>> 8)) in
    let g : u8 (bit_and c 0xFF) ≡ c % 256 = omega (arith, and_mask 8 c) in
    rw (e, f, g)
      (u8-then 0x5F _ (
        u8-then 0x1F _ (
          u8-then 0x04 _ (
            u8-then 0x00 _
              (u8-then (c / 2 ^ 16) _ (u8-then (c / 256 % 256) _ (Emits-u8 (c % 256))))))))

-- The 24 bits behind the octet of unused bits.
Takes-bits :
    (c : ℕ)
    → c < 2 ^ 24
    → Takes (take_bits 4) (0x00 ∷ (c / 2 ^ 16) ∷ (c / 256 % 256) ∷ (c % 256) ∷ []) c
unfolding take_bits
Takes-bits c h b rest v p =
    let xs : List ℕ = (c / 2 ^ 16) ∷ (c / 256 % 256) ∷ (c % 256) ∷ [] in
    let room : buf_unread b ≡ 4 + length rest =
      omega (arith, buf_unread-pending b v, ap length p) in
    let whole : number 0 xs ≡ c = omega arith in
    let (d, e, w) =
      Reads-then (skip 1) (λ _. read_octets 3 0) b tt c (xs ++ rest) rest
        (skip_over (0x00 ∷ []) (xs ++ rest) b v p)
        λ d w.
          subst (λ n. Reads (read_octets 3 0) d n rest) whole
            (read_octets_lem xs rest 0 d w.valid (omega arith, (omega arith, (omega arith, tt)))
              (omega (arith, whole)) w.left) in
    (d, ground (arith, room, e), w)

pub Takes-conformance : (c : ℕ) → c < 2 ^ 24 → Takes take_conformance (conformance_octets c) c
unfolding take_conformance
Takes-conformance c h b rest v p =
    let bits : List ℕ = 0x00 ∷ (c / 2 ^ 16) ∷ (c / 256 % 256) ∷ (c % 256) ∷ [] in
    let room : buf_unread b ≡ 7 + length rest =
      omega (arith, buf_unread-pending b v, ap length p) in
    let o : octet b 0 ≡ 0x5F = octet_at b v 0 _ p (omega arith) in
    let o' : octet b 1 ≡ 0x1F = octet_at b v 1 _ p (omega arith) in
    let (d, e, w) =
      Reads-then (skip 2) (λ _. axdr_read_u8 >>= take_bits) b tt c (0x04 ∷ (bits ++ rest)) rest
        (skip_over (0x5F ∷ 0x1F ∷ []) (0x04 ∷ (bits ++ rest)) b v p)
        λ d w. then-u8 0x04 take_bits bits (Takes-bits c h) d rest w.valid w.left in
    (d, ground (arith, room, o, o', e), w)

-- The octets of the optional parts.
abbrev pub key_octets : InitiateRequest → List ℕ
key_octets req =
    if req.has_dedicated_key
    then 0x01 ∷ req.dedicated_key_len ∷ take req.dedicated_key_len req.dedicated_key
    else 0x00 ∷ []

abbrev pub allowed_octets : Bool → List ℕ
allowed_octets true = 0x00 ∷ []
allowed_octets false = 0x01 ∷ 0x00 ∷ []

abbrev pub qos_octets : Bool → ℤ → List ℕ
qos_octets true qos = 0x01 ∷ to_word i8_half qos ∷ []
qos_octets false qos = 0x00 ∷ []

Emits-key : (xs : List ℕ) → Emits (write_key xs) xs
unfolding write_key
Emits-key [] = Emits-nothing
Emits-key (x ∷ xs) = u8-then x xs (Emits-key xs)

pub Emits-optional_key : (req : InitiateRequest) → Emits (write_optional_key req) (key_octets req)
unfolding write_optional_key
Emits-optional_key req = elim (Bool-cases req.has_dedicated_key) [
  | inl has ↦ rw has (
      u8-then 0x01 _ (
        u8-then req.dedicated_key_len _ (Emits-key (take req.dedicated_key_len req.dedicated_key))))
  | inr hasnt ↦ rw hasnt (Emits-u8 0x00)
]

pub Emits-allowed : (k : Bool) → Emits (write_response_allowed k) (allowed_octets k)
unfolding write_response_allowed
Emits-allowed true = Emits-u8 0x00
Emits-allowed false = u8-then 0x01 (0x00 ∷ []) (Emits-u8 0x00)

pub Emits-qos : (k : Bool) (qos : ℤ) → Emits (write_optional_qos k qos) (qos_octets k qos)
unfolding write_optional_qos
Emits-qos true qos = u8-then 0x01 (to_word i8_half qos ∷ []) (Emits-u8 (to_word i8_half qos))
Emits-qos false qos = Emits-u8 0x00

pub Takes-allowed : (k : Bool) → Takes read_response_allowed (allowed_octets k) k
unfolding read_response_allowed by_flag
Takes-allowed true = then-u8 0x00 _ [] (Takes-pure true)
Takes-allowed false = then-u8 0x01 _ (0x00 ∷ []) (then-u8 0x00 _ [] (Takes-pure false))

-- An absent quality of service is read as 0.
pub Takes-qos :
    (k : Bool) (qos : ℤ)
    → IsSigned i8_half qos
    → Takes read_qos (qos_octets k qos) (k, (if k then qos else pos 0))
unfolding read_qos by_flag
Takes-qos true qos h = then-u8 0x01 _ (to_word i8_half qos ∷ []) (
    then-u8 (to_word i8_half qos) _ []
      (rw (as_signed-to_word i8_half qos h) (Takes-pure (true, qos))))
Takes-qos false qos h = then-u8 0x00 _ [] (Takes-pure (false, pos 0))

-- A request whose fields fit their fields on the wire.
pub record IsRequest (req : InitiateRequest) : Type 0 where
  pub key_fits : req.dedicated_key_len ≤ dedicated_key_max
  pub key_there : length req.dedicated_key ≡ dedicated_key_max
  pub qos_fits : IsSigned i8_half req.proposed_quality_of_service
  pub conformance_fits : req.proposed_conformance < 2 ^ 24
  pub size_fits : req.client_max_receive_pdu_size < 2 ^ 16

-- The key of a request, in an array that was blank.
abbrev pub with_key : InitiateRequest → InitiateRequest
with_key req =
    if req.has_dedicated_key
    then record blank_request {
      dedicated_key =
          blit blank_request.dedicated_key 0 (take req.dedicated_key_len req.dedicated_key);
      dedicated_key_len = req.dedicated_key_len;
      has_dedicated_key = true;
    }
    else blank_request

keyed : List ℕ → ℕ → InitiateRequest
keyed xs len = record blank_request {
  dedicated_key = blit blank_request.dedicated_key 0 xs;
  dedicated_key_len = len;
  has_dedicated_key = true;
}

Takes-copied :
    (xs : List ℕ)
    → length xs ≤ dedicated_key_max
    → Takes (copy_key blank_request (length xs)) xs (keyed xs (length xs))
unfolding copy_key keyed
Takes-copied xs fits b rest v p =
    let room : length xs ≤ length (pending b) = omega (arith, ap length p, length-append xs rest) in
    let got : octets_at b (length xs) ≡ xs =
      octets_at-pending b v (length xs) room
      ∙ ap (take (length xs)) p
      ∙ take-length-append xs rest in
    let (c, e, q) = skip_over xs rest b v p in
    (c, ground (arith, e, got, buf_unread-pending b v), q)

pub Takes-key :
    (req : InitiateRequest)
    → IsRequest req
    → Takes (by_flag (pure blank_request) (read_key blank_request)) (key_octets req) (with_key req)
unfolding by_flag read_key keyed
Takes-key req v = elim (Bool-cases req.has_dedicated_key) [
  | inl has ↦
      let xs = take req.dedicated_key_len req.dedicated_key in
      let n : length xs ≡ req.dedicated_key_len =
        omega
          (arith, length-take req.dedicated_key_len req.dedicated_key, v.key_fits, v.key_there) in
      rw has (
        then-u8 0x01 _ (req.dedicated_key_len ∷ xs) (
          then-u8 req.dedicated_key_len _ xs (
            subst (λ k. Takes (copy_key blank_request k) xs (keyed xs k)) n
              (Takes-copied xs (omega (arith, n, v.key_fits))))))
  | inr hasnt ↦ rw hasnt (then-u8 0x00 _ [] (Takes-pure blank_request))
]
