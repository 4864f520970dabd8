-- ===== src/Codec/CompactArray/Written.antt =====
-- What the writer of compact arrays writes.
use openspodes.Prelude.{
  ℕ, ◌+◌, ◌≤◌, ◌<◌, ◌^◌, ◌/◌, ◌≡◌, List, [], ◌∷◌, ◌++◌, length, arith, u32, ltb,
}
use openspodes.Prelude.Slices.{take-length}
use openspodes.Prelude.Ints.{as_signed, IsSigned, i8_half}
use openspodes.Err.{invalid}
use openspodes.Buf.{Buf, IsBuf}
use openspodes.Buf.View.{Writes}
use openspodes.Codec.Len.Format.{len_octets}
use openspodes.Codec.Wire.{Emits, Emits-nothing, Emits-test, Emits-then}
use openspodes.Codec.Wire.Parts.{
  Emits-u8, Emits-len, Emits-body, u8-then, Emits-u16, Emits-u32, bool_octet,
}
use openspodes.Codec.Serialize.{Bits}
use openspodes.Codec.Serialize.Words.{Emits-i8, Emits-i16, Emits-i32, Emits-i64, Emits-u64}
use openspodes.Codec.Serialize.Dates.{Emits-date, Emits-time, Emits-datetime}
use openspodes.Codec.Value.{
  Value, Values, tag_of, tag_compact_array, null, boolean, bitstring, int32, uint32, octetstring,
  visiblestring, utf8string, bcd, int8, int16, uint8, uint16, int64, uint64, enum_val, float32,
  float64, datetime, date, time, array, structure, other, no_items, item,
}
use openspodes.Codec.Value.Format.{Fits, AllFit, FitsBits, body_octets}
use openspodes.Codec.Value.Scalars.{Emits-written}
use openspodes.Codec.TypeDescription.RoundTrip.{HasType, type_octets, Emits-description}
use openspodes.Codec.CompactArray.{
  packed_total, pack_bits, pack_value, pack_items, value_write_compact_array,
}
use openspodes.Codec.CompactArray.Size.{packed_octets, packed_items, packed_total_lem}

pub as_signed-IsSigned : (n : ℕ) → IsSigned i8_half (as_signed i8_half n)
unfolding as_signed
as_signed-IsSigned n = ground arith

Emits-pack_bits : (s : Bits) → FitsBits s → Emits (pack_bits s) (len_octets s.num_bits ++ s.bits)
unfolding pack_bits
Emits-pack_bits s f =
    let bytes : u32 (s.num_bits + 7) / 8 ≡ length s.bits = omega (arith, f.whole, f.few) in
    rw (bytes, take-length s.bits)
      (Emits-then (len_octets s.num_bits) s.bits (Emits-len s.num_bits) (Emits-body s.bits))

mutual
  unfolding pack_value pack_items packed_octets packed_items body_octets Fits AllFit

  pub Emits-packed : (v : Value) → Fits v → Emits (pack_value v) (packed_octets v)
  Emits-packed null f = Emits-nothing
  Emits-packed (boolean k) f = Emits-u8 (bool_octet k)
  Emits-packed (bitstring s) f = Emits-pack_bits s f
  Emits-packed (bcd n) f = Emits-i8 (as_signed i8_half n) (as_signed-IsSigned n)
  Emits-packed (int8 z) f = Emits-i8 z f
  Emits-packed (int16 z) f = Emits-i16 z f
  Emits-packed (int32 z) f = Emits-i32 z f
  Emits-packed (int64 z) f = Emits-i64 z f
  Emits-packed (uint8 n) f = Emits-u8 n
  Emits-packed (enum_val n) f = Emits-u8 n
  Emits-packed (uint16 n) f = Emits-u16 n f
  Emits-packed (uint32 n) f = Emits-u32 n f
  Emits-packed (float32 n) f = Emits-u32 n f
  Emits-packed (uint64 n) f = Emits-u64 n f
  Emits-packed (float64 n) f = Emits-u64 n f
  Emits-packed (octetstring xs) f = Emits-written xs
  Emits-packed (visiblestring xs) f = Emits-written xs
  Emits-packed (utf8string xs) f = Emits-written xs
  Emits-packed (date d) f = Emits-date d f
  Emits-packed (time t) f = Emits-time t
  Emits-packed (datetime dt) f = Emits-datetime dt f
  Emits-packed (array vs) f = Emits-packed_items vs f.1
  Emits-packed (structure vs) f = Emits-packed_items vs f.1
  Emits-packed (other tag) f = absurd f

  Emits-packed_items : (vs : Values) → AllFit vs → Emits (pack_items vs) (packed_items vs)
  Emits-packed_items no_items f = Emits-nothing
  Emits-packed_items (item v vs) f =
      Emits-then (packed_octets v) (packed_items vs) (Emits-packed v f.0)
        (Emits-packed_items vs f.1)

-- The tag, the type of the first element, the length of the contents, and the contents.
abbrev pub compact_octets : Value → Values → List ℕ
compact_octets v vs =
    tag_compact_array
    ∷ ((tag_of v ∷ type_octets v)
        ++ (len_octets (length (packed_items (item v vs))) ++ packed_items (item v vs)))

-- An array of values in range, the first of which has a type, with contents shorter than 2 ^ 32
-- octets, into a buffer with room for it: `osp_value_write_compact_array` writes the tag, the type
-- of the first element, and the packed values behind their length: the length that is computed
-- beforehand is the count of the octets that follow.
pub compact_array_written :
    (v : Value) (vs : Values) (b : Buf)
    → AllFit (item v vs)
    → HasType v
    → length (packed_items (item v vs)) < 2 ^ 32
    → IsBuf b
    → b.wr + length (compact_octets v vs) ≤ b.size
    → Writes (value_write_compact_array (array (item v vs))) b (compact_octets v vs)
unfolding value_write_compact_array
compact_array_written v vs b f h few vb room =
    let xs = packed_items (item v vs) in
    let total : packed_total (item v vs) ≡ length xs = packed_total_lem (item v vs) f in
    let narrow : u32 (length xs) ≡ length xs = omega (arith, few) in
    rw (total, narrow)
      (u8-then 19 ((tag_of v ∷ type_octets v) ++ (len_octets (length xs) ++ xs))
        (Emits-then (tag_of v ∷ type_octets v) (len_octets (length xs) ++ xs)
          (Emits-description v h)
          (Emits-then [] (len_octets (length xs) ++ xs)
            (Emits-test (ltb 0xFFFFFFFF (length xs)) invalid (ground (arith, few)))
            (Emits-then (len_octets (length xs)) xs (Emits-len (length xs))
              (Emits-packed_items (item v vs) f))))
        b vb room)
