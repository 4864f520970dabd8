-- ===== src/Codec/CompactArray/Size.antt =====
-- The length computed for the contents of a compact array is the count of octets of its values.
use openspodes.Prelude.{
  ℕ, ◌+◌, ◌^◌, ◌<◌, ◌≡◌, refl, List, [], ◌∷◌, ◌++◌, length, length-append, arith,
}
use openspodes.Prelude.Ints.{to_word, as_signed, i8_half}
use openspodes.Codec.Len.{min_octets_u32}
use openspodes.Codec.Len.Format.{len_octets, length-big_endian}
use openspodes.Codec.Value.{
  Value, Values, null, boolean, bitstring, int32, uint32, octetstring, visiblestring, utf8string,
  bcd, int8, int16, uint8, uint16, int64, uint64, enum_val, float32, float64, datetime, date, time,
  array, structure, other, no_items, item,
}
use openspodes.Codec.Value.Format.{Fits, AllFit, body_octets}
use openspodes.Codec.CompactArray.{dlms_encoded_len_size, packed_value_size, packed_total}

unfoldable mutual
  -- The octets of a value without its tag, and without the count of a list.
  pub packed_octets : Value → List ℕ
  packed_octets (bitstring s) = len_octets s.num_bits ++ s.bits
  packed_octets (bcd n) = to_word i8_half (as_signed i8_half n) ∷ []
  packed_octets (array vs) = packed_items vs
  packed_octets (structure vs) = packed_items vs
  packed_octets v = body_octets v

  pub packed_items : Values → List ℕ
  packed_items no_items = []
  packed_items (item v vs) = packed_octets v ++ packed_items vs

encoded_len_size_lem : (v : ℕ) → v < 2 ^ 32 → dlms_encoded_len_size v ≡ length (len_octets v)
unfolding dlms_encoded_len_size len_octets min_octets_u32
encoded_len_size_lem v h = ground (arith, length-big_endian (min_octets_u32 v) v)

string_size :
    (xs : List ℕ)
    → length xs < 2 ^ 32
    → dlms_encoded_len_size (length xs) + length xs ≡ length (len_octets (length xs) ++ xs)
string_size xs h =
    omega (arith, encoded_len_size_lem (length xs) h, length-append (len_octets (length xs)) xs)

mutual
  unfolding packed_value_size packed_total packed_octets packed_items body_octets Fits AllFit

  pub packed_value_size_lem : (v : Value) → Fits v → packed_value_size v ≡ length (packed_octets v)
  packed_value_size_lem (bitstring s) f = omega (
    arith,
    f.few,
    f.whole,
    encoded_len_size_lem s.num_bits (omega (arith, f.few)),
    length-append (len_octets s.num_bits) s.bits,
  )
  packed_value_size_lem (bcd n) f = refl
  packed_value_size_lem (array vs) f = packed_total_lem vs f.1
  packed_value_size_lem (structure vs) f = packed_total_lem vs f.1
  packed_value_size_lem (other tag) f = absurd f
  packed_value_size_lem null f = refl
  packed_value_size_lem (boolean x) f = refl
  packed_value_size_lem (int32 z) f = refl
  packed_value_size_lem (uint32 n) f = refl
  packed_value_size_lem (octetstring xs) f = string_size xs (omega (arith, f))
  packed_value_size_lem (visiblestring xs) f = string_size xs (omega (arith, f))
  packed_value_size_lem (utf8string xs) f = string_size xs (omega (arith, f))
  packed_value_size_lem (int8 z) f = refl
  packed_value_size_lem (int16 z) f = refl
  packed_value_size_lem (uint8 n) f = refl
  packed_value_size_lem (uint16 n) f = refl
  packed_value_size_lem (int64 z) f = refl
  packed_value_size_lem (uint64 n) f = refl
  packed_value_size_lem (enum_val n) f = refl
  packed_value_size_lem (float32 n) f = refl
  packed_value_size_lem (float64 n) f = refl
  packed_value_size_lem (datetime dt) f = refl
  packed_value_size_lem (date y) f = refl
  packed_value_size_lem (time t) f = refl

  pub packed_total_lem : (vs : Values) → AllFit vs → packed_total vs ≡ length (packed_items vs)
  packed_total_lem no_items f = refl
  packed_total_lem (item v vs) f = omega (
    arith,
    packed_value_size_lem v f.0,
    packed_total_lem vs f.1,
    length-append (packed_octets v) (packed_items vs),
  )
