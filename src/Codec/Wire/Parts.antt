-- ===== src/Codec/Wire/Parts.antt =====
-- What the calls of src/codec/codec.c that other encoders are made of write and take.
use openspodes.Prelude.{
  ℕ, ◌+◌, ◌*◌, ◌/◌, ◌%◌, ◌^◌, ◌≤◌, ◌<◌, ◌≡◌, Bool, true, false, List, [], ◌∷◌, length, arith,
  if◌then◌else◌, subst,
}
use openspodes.Err.{Call, ◌>>=◌, ◌>>◌}
use openspodes.Buf.{Buf}
use openspodes.Codec.Len.{dlms_read_len, dlms_write_len, axdr_push_length, axdr_read_length}
use openspodes.Codec.Len.Format.{len_octets, write_len_fits}
use openspodes.Codec.Len.RoundTrip.{read_len_lem}
use openspodes.Codec.Ber.{read_string_body, write_string_body}
use openspodes.Codec.Ber.Octets.{read_body_lem, write_body_lem}
use openspodes.Codec.Axdr.{
  axdr_read_tag, axdr_write_tag, axdr_read_u8, axdr_read_u16, axdr_read_u32, axdr_read_bool,
  axdr_write_u8, axdr_write_u16, axdr_write_u32, axdr_write_bool, axdr_write_octet_string,
}
use openspodes.Codec.Axdr.RoundTrip.{
  read_u8_lem, read_u16_lem, read_u32_lem, read_bool_lem, write_u8_lem, write_u16_lem,
  write_u32_lem, write_bool_lem,
}
use openspodes.Codec.Axdr.Strings.{read_tag_lem, write_tag_lem, write_string_lem, axdr_string}
use openspodes.Codec.Wire.{Emits, Takes, Emits-code, Takes-code, Emits-then, Takes-then}

-- The octets of the fixed-width values.
abbrev pub u16_octets : ℕ → List ℕ
u16_octets x = (x / 256) ∷ (x % 256) ∷ []

abbrev pub u32_octets : ℕ → List ℕ
u32_octets x = (x / 2 ^ 24) ∷ (x / 2 ^ 16 % 256) ∷ (x / 256 % 256) ∷ (x % 256) ∷ []

abbrev pub bool_octet : Bool → ℕ
bool_octet k = if k then 1 else 0

pub Emits-u8 : (x : ℕ) → Emits (axdr_write_u8 x) (x ∷ [])
Emits-u8 x b v room = write_u8_lem b v x (omega arith)

pub Takes-u8 : (x : ℕ) → Takes axdr_read_u8 (x ∷ []) x
Takes-u8 x b rest v p = read_u8_lem b v x rest p

pub Emits-tag : (x : ℕ) → Emits (axdr_write_tag x) (x ∷ [])
Emits-tag x b v room = write_tag_lem b v x (omega arith)

pub Takes-tag : (x : ℕ) → Takes axdr_read_tag (x ∷ []) x
Takes-tag x b rest v p = read_tag_lem b v x rest p

pub Emits-bool : (k : Bool) → Emits (axdr_write_bool k) (bool_octet k ∷ [])
Emits-bool k b v room = write_bool_lem b v k (omega arith)

pub Takes-bool : (k : Bool) → Takes axdr_read_bool (bool_octet k ∷ []) k
Takes-bool true b rest v p = read_bool_lem b v 1 rest p
Takes-bool false b rest v p = read_bool_lem b v 0 rest p

pub Emits-u16 : (x : ℕ) → x < 2 ^ 16 → Emits (axdr_write_u16 x) (u16_octets x)
Emits-u16 x h b v room = write_u16_lem b v x h (omega arith)

pub Takes-u16 : (x : ℕ) → x < 2 ^ 16 → Takes axdr_read_u16 (u16_octets x) x
Takes-u16 x h =
    let e : x / 256 * 256 + x % 256 ≡ x = omega arith in
    subst (Takes axdr_read_u16 (u16_octets x)) e
      λ b rest v p. read_u16_lem b v (x / 256) (x % 256) rest (omega arith) (omega arith) p

pub Emits-u32 : (x : ℕ) → x < 2 ^ 32 → Emits (axdr_write_u32 x) (u32_octets x)
Emits-u32 x h b v room = write_u32_lem b v x h (omega arith)

pub Takes-u32 : (x : ℕ) → x < 2 ^ 32 → Takes axdr_read_u32 (u32_octets x) x
Takes-u32 x h =
    let e : ((x / 2 ^ 24 * 256 + x / 2 ^ 16 % 256) * 256 + x / 256 % 256) * 256 + x % 256 ≡ x =
      omega arith in
    subst (Takes axdr_read_u32 (u32_octets x)) e λ b rest v p.
      read_u32_lem b v (x / 2 ^ 24) (x / 2 ^ 16 % 256) (x / 256 % 256) (x % 256) rest (omega arith)
        (omega arith) (omega arith) (omega arith) p

pub Emits-len : (n : ℕ) → Emits (dlms_write_len n) (len_octets n)
Emits-len n b v room = write_len_fits n b v room

pub Takes-len : (n : ℕ) → n < 2 ^ 32 → Takes dlms_read_len (len_octets n) n
Takes-len n h b rest v p = read_len_lem n rest b v h p

pub Emits-push_length : (n : ℕ) → Emits (axdr_push_length n) (len_octets n)
unfolding axdr_push_length
Emits-push_length n = Emits-code (len_octets n) (Emits-len n)

pub Takes-read_length : (n : ℕ) → n < 2 ^ 32 → Takes axdr_read_length (len_octets n) n
unfolding axdr_read_length
Takes-read_length n h = Takes-code (len_octets n) (Takes-len n h)

pub Emits-body : (xs : List ℕ) → Emits (write_string_body xs) xs
Emits-body xs b v room = write_body_lem xs b v room

pub Takes-body :
    (max : ℕ) (xs : List ℕ) → length xs ≤ max → Takes (read_string_body max (length xs)) xs xs
Takes-body max xs h b rest v p = read_body_lem max xs rest b v h p

pub Emits-string : (xs : List ℕ) → Emits (axdr_write_octet_string xs) (axdr_string xs)
Emits-string xs b v room = write_string_lem b v xs room

-- One octet in front of what follows.
pub u8-then :
    (x : ℕ) {k : Call Buf (Unit {0})} (ys : List ℕ)
    → Emits k ys
    → Emits (axdr_write_u8 x >> k) (x ∷ ys)
u8-then x ys q = Emits-then (x ∷ []) ys (Emits-u8 x) q

pub then-u8 :
    {B : Type 0} (x : ℕ) (k : ℕ → Call Buf B) (ys : List ℕ) {z : B}
    → Takes (k x) ys z
    → Takes (axdr_read_u8 >>= k) (x ∷ ys) z
then-u8 x k ys q = Takes-then k (x ∷ []) ys (Takes-u8 x) q
