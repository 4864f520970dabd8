-- ===== src/Codec/TypeDescription/RoundTrip.antt =====
-- The description of a type is skipped as a whole.
use openspodes.Prelude.{
  ℕ, zero, suc, max, ◌+◌, ◌/◌, ◌%◌, ◌≤◌, ◌<◌, ◌^◌, ◌≡◌, ap, List, [], ◌∷◌, ◌++◌, length, arith,
}
use openspodes.Err.{ok, ◌>>◌}
use openspodes.Buf.{Buf, IsBuf}
use openspodes.Buf.View.{pending, content, buf_unread-pending}
use openspodes.Buf.Compose.{skip_over}
use openspodes.Codec.Len.Format.{len_octets}
use openspodes.Codec.Wire.{
  Emits, Takes, Emits-nothing, Takes-pure, Emits-then, Takes-then, Emits-Takes,
}
use openspodes.Codec.Wire.Parts.{Takes-u8, Emits-u16, Emits-len, Takes-len, u8-then, u16_octets}
use openspodes.Codec.Value.{
  null, boolean, bitstring, int32, uint32, octetstring, visiblestring, utf8string, bcd, int8, int16,
  uint8, uint16, int64, uint64, enum_val, float32, float64, datetime, date, time, Value, Values,
  array, structure, no_items, item, tag_of, count_of, other,
}
use openspodes.Codec.TypeDescription.{
  max_type_depth, skip_two, skip_fields, skip_type_description_depth, skip_type_description,
  write_type, write_fields, write_type_description,
}

unfoldable mutual
  -- Behind the tag.
  pub type_octets : Value → List ℕ
  type_octets (structure vs) = len_octets (count_of vs) ++ fields_octets vs
  type_octets (array no_items) = []
  type_octets (array (item v vs)) = u16_octets (suc (count_of vs)) ++ (tag_of v ∷ type_octets v)
  type_octets _ = []

  pub fields_octets : Values → List ℕ
  fields_octets no_items = []
  fields_octets (item v vs) = (tag_of v ∷ type_octets v) ++ fields_octets vs

unfoldable mutual
  -- Counts that fit, no array without elements, and no tag but those of values.
  pub HasType : Value → Type 0
  HasType (structure vs) = (count_of vs < 2 ^ 32) × HaveTypes vs
  HasType (array no_items) = ⊥
  HasType (array (item v vs)) = (suc (count_of vs) < 2 ^ 16) × HasType v
  HasType (other tag) = ⊥
  HasType _ = Unit

  pub HaveTypes : Values → Type 0
  HaveTypes no_items = Unit
  HaveTypes (item v vs) = HasType v × HaveTypes vs

unfoldable mutual
  -- How deep the type of a value is nested.
  pub type_depth : Value → ℕ
  type_depth (structure vs) = suc (fields_depth vs)
  type_depth (array no_items) = 1
  type_depth (array (item v vs)) = suc (type_depth v)
  type_depth _ = 1

  pub fields_depth : Values → ℕ
  fields_depth no_items = 0
  fields_depth (item v vs) = max (type_depth v) (fields_depth vs)

mutual
  unfolding write_type write_fields type_octets fields_octets HasType HaveTypes

  Emits-type : (v : Value) → HasType v → Emits (write_type v) (type_octets v)
  Emits-type (structure vs) h =
      Emits-then (len_octets (count_of vs)) (fields_octets vs) (Emits-len (count_of vs))
        (Emits-fields vs h.1)
  Emits-type (array no_items) h = absurd h
  Emits-type (array (item v vs)) h =
      Emits-then (u16_octets (suc (count_of vs))) (tag_of v ∷ type_octets v)
        (Emits-u16 (suc (count_of vs)) h.0) (u8-then (tag_of v) (type_octets v) (Emits-type v h.1))
  Emits-type (other tag) h = absurd h
  Emits-type null h = Emits-nothing
  Emits-type (boolean x) h = Emits-nothing
  Emits-type (bitstring s) h = Emits-nothing
  Emits-type (int32 z) h = Emits-nothing
  Emits-type (uint32 n) h = Emits-nothing
  Emits-type (octetstring xs) h = Emits-nothing
  Emits-type (visiblestring xs) h = Emits-nothing
  Emits-type (utf8string xs) h = Emits-nothing
  Emits-type (bcd n) h = Emits-nothing
  Emits-type (int8 z) h = Emits-nothing
  Emits-type (int16 z) h = Emits-nothing
  Emits-type (uint8 n) h = Emits-nothing
  Emits-type (uint16 n) h = Emits-nothing
  Emits-type (int64 z) h = Emits-nothing
  Emits-type (uint64 n) h = Emits-nothing
  Emits-type (enum_val n) h = Emits-nothing
  Emits-type (float32 n) h = Emits-nothing
  Emits-type (float64 n) h = Emits-nothing
  Emits-type (datetime dt) h = Emits-nothing
  Emits-type (date d) h = Emits-nothing
  Emits-type (time t) h = Emits-nothing

  Emits-fields : (vs : Values) → HaveTypes vs → Emits (write_fields vs) (fields_octets vs)
  Emits-fields no_items h = Emits-nothing
  Emits-fields (item v vs) h =
      Emits-then (tag_of v ∷ type_octets v) (fields_octets vs)
        (u8-then (tag_of v) (type_octets v) (Emits-type v h.0)) (Emits-fields vs h.1)

pub Emits-description :
    (v : Value) → HasType v → Emits (write_type_description v) (tag_of v ∷ type_octets v)
unfolding write_type_description
Emits-description v h = u8-then (tag_of v) (type_octets v) (Emits-type v h)

Takes-two : (x y : ℕ) → Takes skip_two (x ∷ y ∷ []) tt
unfolding skip_two
Takes-two x y b rest v p =
    let (c, e, q) = skip_over (x ∷ y ∷ []) rest b v p in
    (c, ground (arith, e, buf_unread-pending b v, ap length p), q)

-- What the reader that is left `left` more levels does with the type of a value.
abbrev SkipsAll : ℕ → Type 0
SkipsAll left =
    (v : Value)
    → HasType v
    → type_depth v ≤ left
    → Takes (skip_type_description_depth left) (tag_of v ∷ type_octets v) tt

Takes-fields :
    (left : ℕ)
    → SkipsAll left
    → (vs : Values) → HaveTypes vs
    → fields_depth vs ≤ left
    → Takes (skip_fields (skip_type_description_depth left) (count_of vs)) (fields_octets vs) tt
unfolding skip_fields fields_octets HaveTypes fields_depth
Takes-fields left each no_items h d = Takes-pure tt
Takes-fields left each (item v vs) h d =
    Takes-then _ (tag_of v ∷ type_octets v) (fields_octets vs) (each v h.0 (omega (arith, d)))
      (Takes-fields left each vs h.1 (omega (arith, d)))

Takes-type : (left : ℕ) → SkipsAll left → SkipsAll (suc left)
unfolding skip_type_description_depth type_octets HasType type_depth
Takes-type left each (structure vs) h d =
    Takes-then _ (2 ∷ []) (len_octets (count_of vs) ++ fields_octets vs) (Takes-u8 2) (
      Takes-then _ (len_octets (count_of vs)) (fields_octets vs) (Takes-len (count_of vs) h.0)
        (Takes-fields left each vs h.1 (omega (arith, d))))
Takes-type left each (array no_items) h d = absurd h
Takes-type left each (array (item v vs)) h d =
    let n = suc (count_of vs) in
    Takes-then _ (1 ∷ []) (u16_octets n ++ (tag_of v ∷ type_octets v)) (Takes-u8 1) (
      Takes-then _ (u16_octets n) (tag_of v ∷ type_octets v) (Takes-two (n / 256) (n % 256))
        (each v h.1 (omega (arith, d))))
Takes-type left each (other tag) h d = absurd h
Takes-type left each null h d = Takes-then _ (tag_of null ∷ []) [] (Takes-u8 _) (Takes-pure tt)
Takes-type left each (boolean x) h d =
    Takes-then _ (tag_of (boolean x) ∷ []) [] (Takes-u8 _) (Takes-pure tt)
Takes-type left each (bitstring s) h d =
    Takes-then _ (tag_of (bitstring s) ∷ []) [] (Takes-u8 _) (Takes-pure tt)
Takes-type left each (int32 z) h d =
    Takes-then _ (tag_of (int32 z) ∷ []) [] (Takes-u8 _) (Takes-pure tt)
Takes-type left each (uint32 n) h d =
    Takes-then _ (tag_of (uint32 n) ∷ []) [] (Takes-u8 _) (Takes-pure tt)
Takes-type left each (octetstring xs) h d =
    Takes-then _ (tag_of (octetstring xs) ∷ []) [] (Takes-u8 _) (Takes-pure tt)
Takes-type left each (visiblestring xs) h d =
    Takes-then _ (tag_of (visiblestring xs) ∷ []) [] (Takes-u8 _) (Takes-pure tt)
Takes-type left each (utf8string xs) h d =
    Takes-then _ (tag_of (utf8string xs) ∷ []) [] (Takes-u8 _) (Takes-pure tt)
Takes-type left each (bcd n) h d =
    Takes-then _ (tag_of (bcd n) ∷ []) [] (Takes-u8 _) (Takes-pure tt)
Takes-type left each (int8 z) h d =
    Takes-then _ (tag_of (int8 z) ∷ []) [] (Takes-u8 _) (Takes-pure tt)
Takes-type left each (int16 z) h d =
    Takes-then _ (tag_of (int16 z) ∷ []) [] (Takes-u8 _) (Takes-pure tt)
Takes-type left each (uint8 n) h d =
    Takes-then _ (tag_of (uint8 n) ∷ []) [] (Takes-u8 _) (Takes-pure tt)
Takes-type left each (uint16 n) h d =
    Takes-then _ (tag_of (uint16 n) ∷ []) [] (Takes-u8 _) (Takes-pure tt)
Takes-type left each (int64 z) h d =
    Takes-then _ (tag_of (int64 z) ∷ []) [] (Takes-u8 _) (Takes-pure tt)
Takes-type left each (uint64 n) h d =
    Takes-then _ (tag_of (uint64 n) ∷ []) [] (Takes-u8 _) (Takes-pure tt)
Takes-type left each (enum_val n) h d =
    Takes-then _ (tag_of (enum_val n) ∷ []) [] (Takes-u8 _) (Takes-pure tt)
Takes-type left each (float32 n) h d =
    Takes-then _ (tag_of (float32 n) ∷ []) [] (Takes-u8 _) (Takes-pure tt)
Takes-type left each (float64 n) h d =
    Takes-then _ (tag_of (float64 n) ∷ []) [] (Takes-u8 _) (Takes-pure tt)
Takes-type left each (datetime dt) h d =
    Takes-then _ (tag_of (datetime dt) ∷ []) [] (Takes-u8 _) (Takes-pure tt)
Takes-type left each (date y) h d =
    Takes-then _ (tag_of (date y) ∷ []) [] (Takes-u8 _) (Takes-pure tt)
Takes-type left each (time t) h d =
    Takes-then _ (tag_of (time t) ∷ []) [] (Takes-u8 _) (Takes-pure tt)

depth_positive : (v : Value) → 1 ≤ type_depth v
unfolding type_depth
depth_positive (structure vs) = omega arith
depth_positive (array no_items) = omega arith
depth_positive (array (item v vs)) = omega arith
depth_positive (other tag) = omega arith
depth_positive null = omega arith
depth_positive (boolean x) = omega arith
depth_positive (bitstring s) = omega arith
depth_positive (int32 z) = omega arith
depth_positive (uint32 n) = omega arith
depth_positive (octetstring xs) = omega arith
depth_positive (visiblestring xs) = omega arith
depth_positive (utf8string xs) = omega arith
depth_positive (bcd n) = omega arith
depth_positive (int8 z) = omega arith
depth_positive (int16 z) = omega arith
depth_positive (uint8 n) = omega arith
depth_positive (uint16 n) = omega arith
depth_positive (int64 z) = omega arith
depth_positive (uint64 n) = omega arith
depth_positive (enum_val n) = omega arith
depth_positive (float32 n) = omega arith
depth_positive (float64 n) = omega arith
depth_positive (datetime dt) = omega arith
depth_positive (date d) = omega arith
depth_positive (time t) = omega arith

Takes-depth : (left : ℕ) → SkipsAll left
Takes-depth zero v h d = absurd (omega (arith, d, depth_positive v))
Takes-depth (suc left) v h d = Takes-type left (Takes-depth left) v h d

-- The type of a value, nested at most 16 deep, whose arrays have elements and whose counts fit:
-- `write_type_description` writes it, and `skip_type_description` takes exactly what was written.
pub type_description_skip-write :
    (v : Value) (b : Buf)
    → HasType v
    → type_depth v ≤ max_type_depth
    → IsBuf b
    → pending b ≡ []
    → b.wr + length (tag_of v ∷ type_octets v) ≤ b.size
    → (c : Buf) × ((write_type_description v >> skip_type_description) b ≡ ok tt c)
      × (content c ≡ content b ++ (tag_of v ∷ type_octets v))
      × (pending c ≡ [])
unfolding skip_type_description
type_description_skip-write v b h d vb none_left room =
    Emits-Takes (tag_of v ∷ type_octets v) (Emits-description v h) (Takes-depth 16 v h d) b vb
      none_left room
