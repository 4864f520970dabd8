-- ===== src/Codec/Value/Format.antt =====
-- The octets of a value, and which values have a place in them.
use openspodes.Prelude.{ℕ, ◌+◌, ◌/◌, ◌^◌, max, ◌≤◌, ◌<◌, ◌≡◌, List, [], ◌∷◌, ◌++◌, length}
use openspodes.Prelude.Ints.{to_word, IsSigned, i8_half, i16_half, i32_half, i64_half}
use openspodes.Codec.Len.Format.{len_octets}
use openspodes.Codec.Wire.Parts.{u16_octets, u32_octets, bool_octet}
use openspodes.Codec.Serialize.{Bits}
use openspodes.Codec.Serialize.Words.{u64_octets}
use openspodes.Codec.Serialize.Dates.{date_octets, time_octets, datetime_octets}
use openspodes.Codec.Serialize.Bitstring.{unused_bits}
use openspodes.Codec.Value.{
  Value, Values, null, boolean, bitstring, int32, uint32, octetstring, visiblestring, utf8string,
  bcd, int8, int16, uint8, uint16, int64, uint64, enum_val, float32, float64, datetime, date, time,
  array, structure, other, no_items, item, tag_of, count_of, max_array_len, max_struct_len,
}

abbrev pub bits_octets : Bits → List ℕ
bits_octets s = len_octets (1 + length s.bits) ++ (unused_bits s ∷ s.bits)

abbrev pub string_octets : List ℕ → List ℕ
string_octets xs = len_octets (length xs) ++ xs

unfoldable mutual
  -- Behind the tag.
  pub body_octets : Value → List ℕ
  body_octets null = []
  body_octets (boolean k) = bool_octet k ∷ []
  body_octets (bitstring s) = bits_octets s
  body_octets (int32 z) = u32_octets (to_word i32_half z)
  body_octets (uint32 n) = u32_octets n
  body_octets (octetstring xs) = string_octets xs
  body_octets (visiblestring xs) = string_octets xs
  body_octets (utf8string xs) = string_octets xs
  body_octets (bcd n) = n ∷ []
  body_octets (int8 z) = to_word i8_half z ∷ []
  body_octets (int16 z) = u16_octets (to_word i16_half z)
  body_octets (uint8 n) = n ∷ []
  body_octets (uint16 n) = u16_octets n
  body_octets (int64 z) = u64_octets (to_word i64_half z)
  body_octets (uint64 n) = u64_octets n
  body_octets (enum_val n) = n ∷ []
  body_octets (float32 n) = u32_octets n
  body_octets (float64 n) = u64_octets n
  body_octets (datetime dt) = datetime_octets dt
  body_octets (date d) = date_octets d
  body_octets (time t) = time_octets t
  body_octets (array vs) = len_octets (count_of vs) ++ items_octets vs
  body_octets (structure vs) = len_octets (count_of vs) ++ items_octets vs
  body_octets (other tag) = []

  pub items_octets : Values → List ℕ
  items_octets no_items = []
  items_octets (item v vs) = (tag_of v ∷ body_octets v) ++ items_octets vs

abbrev pub value_octets : Value → List ℕ
value_octets v = tag_of v ∷ body_octets v

-- The bits of a value fill all octets but the last, and there are at most 256.
pub record FitsBits (s : Bits) : Type 0 where
  pub few : s.num_bits ≤ 256
  pub whole : length s.bits ≡ (s.num_bits + 7) / 8

unfoldable mutual
  -- The value is in the range of its type, and its strings and lists are as long as the reader
  -- allows.
  pub Fits : Value → Type 0
  Fits (bitstring s) = FitsBits s
  Fits (int32 z) = IsSigned i32_half z
  Fits (uint32 n) = n < 2 ^ 32
  Fits (octetstring xs) = length xs ≤ 256
  Fits (visiblestring xs) = length xs ≤ 255
  Fits (utf8string xs) = length xs ≤ 255
  Fits (int8 z) = IsSigned i8_half z
  Fits (int16 z) = IsSigned i16_half z
  Fits (uint16 n) = n < 2 ^ 16
  Fits (int64 z) = IsSigned i64_half z
  Fits (uint64 n) = n < 2 ^ 64
  Fits (float32 n) = n < 2 ^ 32
  Fits (float64 n) = n < 2 ^ 64
  Fits (datetime dt) = dt.date.year < 2 ^ 16
  Fits (date d) = d.year < 2 ^ 16
  Fits (array vs) = (count_of vs ≤ max_array_len) × AllFit vs
  Fits (structure vs) = (count_of vs ≤ max_struct_len) × AllFit vs
  Fits (other tag) = ⊥
  Fits _ = Unit

  pub AllFit : Values → Type 0
  AllFit no_items = Unit
  AllFit (item v vs) = Fits v × AllFit vs

unfoldable mutual
  -- The places of the pool that a value takes.
  pub places : Value → ℕ
  places (array vs) = count_of vs + all_places vs
  places (structure vs) = count_of vs + all_places vs
  places _ = 0

  pub all_places : Values → ℕ
  all_places no_items = 0
  all_places (item v vs) = places v + all_places vs

unfoldable mutual
  -- How deep a value is nested.
  pub depth : Value → ℕ
  depth (array vs) = 1 + deepest vs
  depth (structure vs) = 1 + deepest vs
  depth _ = 1

  pub deepest : Values → ℕ
  deepest no_items = 0
  deepest (item v vs) = max (depth v) (deepest vs)
