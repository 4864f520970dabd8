-- ===== src/Codec/Value/RoundTrip.antt =====
-- A value of any type, however deep, is read back as it was written.
use openspodes.Prelude.{
  ℕ, zero, suc, ◌+◌, ◌≤◌, ◌≡◌, refl, subst, false, List, [], ◌∷◌, ◌++◌, append-nil, length, arith,
  ltb, ◌==◌, none, some,
}
use openspodes.Err.{Call, ok, ◌>>=◌, ◌>>◌, nomem}
use openspodes.Buf.{Buf, IsBuf}
use openspodes.Buf.View.{pending, content}
use openspodes.Codec.Len.Format.{len_octets}
use openspodes.Codec.Wire.{
  Emits, Takes, Emits-nothing, Takes-pure, Takes-test, Emits-then, Takes-then, Takes-last,
  Emits-Takes,
}
use openspodes.Codec.Wire.Parts.{Takes-tag, Emits-len, Takes-len, u8-then}
use openspodes.Codec.Value.{
  Value, Values, null, boolean, bitstring, int32, uint32, octetstring, visiblestring, utf8string,
  bcd, int8, int16, uint8, uint16, int64, uint64, enum_val, float32, float64, datetime, date, time,
  array, structure, other, no_items, item, tag_of, count_of, max_array_len, max_struct_len,
  pool_len, Read, and_then, done, read_scalar, read_items, read_list, value_read_impl, value_read,
  write_body, write_items, value_write,
}
use openspodes.Codec.Value.Format.{
  body_octets, items_octets, value_octets, Fits, AllFit, places, all_places, depth, deepest,
}
use openspodes.Codec.Value.Scalars.{IsScalar, Takes-scalar, Emits-scalar}

mutual
  unfolding write_body body_octets Fits

  Emits-body : (v : Value) → Fits v → Emits (write_body v) (body_octets v)
  Emits-body (array vs) f =
      Emits-then (len_octets (count_of vs)) (items_octets vs) (Emits-len (count_of vs))
        (Emits-items vs f.1)
  Emits-body (structure vs) f =
      Emits-then (len_octets (count_of vs)) (items_octets vs) (Emits-len (count_of vs))
        (Emits-items vs f.1)
  Emits-body null f = Emits-scalar null f tt
  Emits-body (boolean x) f = Emits-scalar (boolean x) f tt
  Emits-body (bitstring s) f = Emits-scalar (bitstring s) f tt
  Emits-body (int32 z) f = Emits-scalar (int32 z) f tt
  Emits-body (uint32 n) f = Emits-scalar (uint32 n) f tt
  Emits-body (octetstring xs) f = Emits-scalar (octetstring xs) f tt
  Emits-body (visiblestring xs) f = Emits-scalar (visiblestring xs) f tt
  Emits-body (utf8string xs) f = Emits-scalar (utf8string xs) f tt
  Emits-body (bcd n) f = Emits-scalar (bcd n) f tt
  Emits-body (int8 z) f = Emits-scalar (int8 z) f tt
  Emits-body (int16 z) f = Emits-scalar (int16 z) f tt
  Emits-body (uint8 n) f = Emits-scalar (uint8 n) f tt
  Emits-body (uint16 n) f = Emits-scalar (uint16 n) f tt
  Emits-body (int64 z) f = Emits-scalar (int64 z) f tt
  Emits-body (uint64 n) f = Emits-scalar (uint64 n) f tt
  Emits-body (enum_val n) f = Emits-scalar (enum_val n) f tt
  Emits-body (float32 n) f = Emits-scalar (float32 n) f tt
  Emits-body (float64 n) f = Emits-scalar (float64 n) f tt
  Emits-body (datetime dt) f = Emits-scalar (datetime dt) f tt
  Emits-body (date d) f = Emits-scalar (date d) f tt
  Emits-body (time t) f = Emits-scalar (time t) f tt
  Emits-body (other tag) f = absurd f

  Emits-items : (vs : Values) → AllFit vs → Emits (write_items vs) (items_octets vs)
  Emits-items no_items f = Emits-nothing
  Emits-items (item v vs) f =
      Emits-then (value_octets v) (items_octets vs)
        (u8-then (tag_of v) (body_octets v) (Emits-body v f.0)) (Emits-items vs f.1)

pub Emits-value : (v : Value) → Fits v → Emits (value_write v) (value_octets v)
unfolding value_write
Emits-value v f = u8-then (tag_of v) (body_octets v) (Emits-body v f)

-- A value holds a list or it does not.
data Shape : Value → Type 0 where
  scalar : {v : Value} → IsScalar v → Shape v
  list_array : (vs : Values) → Shape (array vs)
  list_structure : (vs : Values) → Shape (structure vs)

shape : (v : Value) → Shape v
shape null = scalar tt
shape (boolean x) = scalar tt
shape (bitstring s) = scalar tt
shape (int32 z) = scalar tt
shape (uint32 n) = scalar tt
shape (octetstring xs) = scalar tt
shape (visiblestring xs) = scalar tt
shape (utf8string xs) = scalar tt
shape (bcd n) = scalar tt
shape (int8 z) = scalar tt
shape (int16 z) = scalar tt
shape (uint8 n) = scalar tt
shape (uint16 n) = scalar tt
shape (int64 z) = scalar tt
shape (uint64 n) = scalar tt
shape (enum_val n) = scalar tt
shape (float32 n) = scalar tt
shape (float64 n) = scalar tt
shape (datetime dt) = scalar tt
shape (date d) = scalar tt
shape (time t) = scalar tt
shape (array vs) = list_array vs
shape (structure vs) = list_structure vs
shape (other tag) = scalar tt

Takes-and_then :
    {A B : Type 0} {m : Call Buf (Read A)} (k : A → ℕ → Call Buf (Read B)) (xs ys : List ℕ) (a : A)
    (used : ℕ) {z : Read B}
    → Takes m xs (some (a, used))
    → Takes (k a used) ys z
    → Takes (and_then m k) (xs ++ ys) z
Takes-and_then k xs ys a used p q = Takes-then _ xs ys p q

-- What was read is put into the result.
Takes-made :
    {A B : Type 0} {m : Call Buf (Read A)} (make : A → B) (xs : List ℕ) (a : A) (used : ℕ)
    → Takes m xs (some (a, used))
    → Takes (and_then m λ a' used'. done (make a') used') xs (some (make a, used))
Takes-made {m} make xs a used p =
    subst (λ l. Takes (and_then m λ a' used'. done (make a') used') l (some (make a, used)))
      (append-nil xs)
      (Takes-and_then (λ a' used'. done (make a') used') xs [] a used p
        (Takes-pure (some (make a, used))))

module _ (read : ℕ → Call Buf (Read Value)) (fuel : ℕ)
    (each : (v : Value) (used : ℕ)
      → Fits v
      → depth v ≤ fuel
      → used + places v ≤ pool_len
      → Takes (read used) (value_octets v) (some (v, used + places v))) where
  Takes-items :
      (vs : Values) (used : ℕ)
      → AllFit vs
      → deepest vs ≤ fuel
      → used + all_places vs ≤ pool_len
      → Takes
          (read_items read (count_of vs) used)
          (items_octets vs)
          (some (vs, used + all_places vs))
  unfolding read_items items_octets AllFit deepest all_places
  Takes-items no_items used f d room =
      subst (λ (k : ℕ). Takes (done no_items used) [] (some (no_items, k))) (omega arith)
        (Takes-pure (some (no_items, used)))
  Takes-items (item v vs) used f d room =
      let sum : used + places v + all_places vs ≡ used + (places v + all_places vs) = omega arith in
      subst
        (λ (k : ℕ).
          Takes (read_items read (count_of (item v vs)) used) (items_octets (item v vs))
            (some (item v vs, k)))
        sum
        (Takes-and_then
          (λ v' used'.
            and_then (read_items read (count_of vs) used') λ vs' used''. done (item v' vs') used'')
          (value_octets v) (items_octets vs) v (used + places v)
          (each v used f.0 (omega (arith, d)) (omega (arith, room)))
          (Takes-made (item v) (items_octets vs) vs (used + places v + all_places vs)
            (Takes-items vs (used + places v) f.1 (omega (arith, d)) (omega (arith, room)))))

  Takes-list :
      (vs : Values) (used max_len : ℕ) (make : Values → Value)
      → count_of vs ≤ max_len
      → max_len ≤ 32
      → AllFit vs
      → deepest vs ≤ fuel
      → used + (count_of vs + all_places vs) ≤ pool_len
      → Takes
          (read_list read max_len make used)
          (len_octets (count_of vs) ++ items_octets vs)
          (some (make vs, used + (count_of vs + all_places vs)))
  unfolding read_list
  Takes-list vs used max_len make few small f d room =
      let n = count_of vs in
      let sum : used + n + all_places vs ≡ used + (n + all_places vs) = omega arith in
      Takes-then _ (len_octets n) (items_octets vs) (Takes-len n (omega arith)) (
        Takes-then _ [] (items_octets vs) (Takes-test (ltb max_len n) nomem (ground arith)) (
          Takes-then _ [] (items_octets vs)
            (Takes-test (ltb pool_len (used + n)) nomem (ground (arith, room)))
            (subst
              (λ (k : ℕ).
                Takes (and_then (read_items read n (used + n)) λ vs' used'. done (make vs') used')
                  (items_octets vs) (some (make vs, k)))
              sum
              (Takes-made make (items_octets vs) vs (used + n + all_places vs)
                (Takes-items vs (used + n) f d (omega (arith, room)))))))

-- The tag of a value without further values selects the readers of those.
scalar_facts :
    (v : Value)
    → Fits v
    → IsScalar v
    → ((tag_of v == 1) ≡ false)
      × ((tag_of v == 2) ≡ false)
      × ((tag_of v == 19) ≡ false)
      × (places v ≡ 0)
unfolding Fits places
scalar_facts null f k = (refl, refl, refl, refl)
scalar_facts (boolean x) f k = (refl, refl, refl, refl)
scalar_facts (bitstring s) f k = (refl, refl, refl, refl)
scalar_facts (int32 z) f k = (refl, refl, refl, refl)
scalar_facts (uint32 n) f k = (refl, refl, refl, refl)
scalar_facts (octetstring xs) f k = (refl, refl, refl, refl)
scalar_facts (visiblestring xs) f k = (refl, refl, refl, refl)
scalar_facts (utf8string xs) f k = (refl, refl, refl, refl)
scalar_facts (bcd n) f k = (refl, refl, refl, refl)
scalar_facts (int8 z) f k = (refl, refl, refl, refl)
scalar_facts (int16 z) f k = (refl, refl, refl, refl)
scalar_facts (uint8 n) f k = (refl, refl, refl, refl)
scalar_facts (uint16 n) f k = (refl, refl, refl, refl)
scalar_facts (int64 z) f k = (refl, refl, refl, refl)
scalar_facts (uint64 n) f k = (refl, refl, refl, refl)
scalar_facts (enum_val n) f k = (refl, refl, refl, refl)
scalar_facts (float32 n) f k = (refl, refl, refl, refl)
scalar_facts (float64 n) f k = (refl, refl, refl, refl)
scalar_facts (datetime dt) f k = (refl, refl, refl, refl)
scalar_facts (date d) f k = (refl, refl, refl, refl)
scalar_facts (time t) f k = (refl, refl, refl, refl)
scalar_facts (array vs) f k = absurd k
scalar_facts (structure vs) f k = absurd k
scalar_facts (other tag) f k = absurd f

depth_positive : (v : Value) → Shape v → 1 ≤ depth v
unfolding depth
depth_positive _ (list_array vs) = omega arith
depth_positive _ (list_structure vs) = omega arith
depth_positive v (scalar k) = ground arith

module _ (read_compact_array : ℕ → Call Buf (Read Value)) (fuel : ℕ) where
  Takes-Shape :
      ((v : Value) (used : ℕ)
        → Fits v
        → depth v ≤ fuel
        → used + places v ≤ pool_len
        → Takes
            (value_read_impl read_compact_array fuel used)
            (value_octets v)
            (some (v, used + places v)))
      → (v : Value) → Shape v
      → (used : ℕ) → Fits v
      → depth v ≤ suc fuel
      → used + places v ≤ pool_len
      → Takes
          (value_read_impl read_compact_array (suc fuel) used)
          (value_octets v)
          (some (v, used + places v))
  unfolding value_read_impl body_octets Fits depth places
  Takes-Shape each _ (list_array vs) used f d room =
      Takes-then _ (1 ∷ []) (len_octets (count_of vs) ++ items_octets vs) (Takes-tag 1) (
        Takes-list (value_read_impl read_compact_array fuel) fuel each vs used max_array_len array
          f.0 (omega arith) f.1 (omega (arith, d)) room)
  Takes-Shape each _ (list_structure vs) used f d room =
      Takes-then _ (2 ∷ []) (len_octets (count_of vs) ++ items_octets vs) (Takes-tag 2) (
        Takes-list (value_read_impl read_compact_array fuel) fuel each vs used max_struct_len
          structure f.0 (omega arith) f.1 (omega (arith, d)) room)
  Takes-Shape each v (scalar k) used f d room =
      let (e1, e2, e19, no_places) = scalar_facts v f k in
      let same : used ≡ used + places v = omega (arith, no_places) in
      Takes-then _ (tag_of v ∷ []) (body_octets v) (Takes-tag (tag_of v)) (
        rw (e1, e2, e19)
          (subst
            (λ (n : ℕ).
              Takes (read_scalar (tag_of v) >>= λ v'. done v' used) (body_octets v) (some (v, n)))
            same (Takes-last (body_octets v) (λ v'. some (v', used)) (Takes-scalar v f k))))

Takes-impl :
    (read_compact_array : ℕ → Call Buf (Read Value)) (fuel : ℕ) (v : Value) (used : ℕ)
    → Fits v
    → depth v ≤ fuel
    → used + places v ≤ pool_len
    → Takes
        (value_read_impl read_compact_array fuel used)
        (value_octets v)
        (some (v, used + places v))
Takes-impl compact zero v used f d room = absurd (omega (arith, d, depth_positive v (shape v)))
Takes-impl compact (suc fuel) v used f d room =
    Takes-Shape compact fuel (Takes-impl compact fuel) v (shape v) used f d room

-- A value of any type but a compact array, whose numbers are in range and whose strings and lists
-- are as long as the reader allows, nested as deep as it may be, with at most 512 values within it:
-- written into a buffer with nothing left to read and room for it, it is what `osp_value_read`
-- returns next, with fuel for its nesting.
pub value_read-write :
    (read_compact_array : ℕ → Call Buf (Read Value)) (fuel : ℕ) (v : Value) (b : Buf)
    → Fits v
    → depth v ≤ fuel
    → places v ≤ pool_len
    → IsBuf b
    → pending b ≡ []
    → b.wr + length (value_octets v) ≤ b.size
    → (c : Buf) × ((value_write v >> value_read read_compact_array fuel) b ≡ ok (some v) c)
      × (content c ≡ content b ++ value_octets v)
      × (pending c ≡ [])
unfolding value_read
value_read-write compact fuel v b f deep few vb none_left room =
    Emits-Takes (value_octets v) (Emits-value v f)
      (Takes-last (value_octets v) (λ r. elim r [ none ↦ none | some p ↦ some p.0 ])
        (Takes-impl compact fuel v 0 f deep (omega arith)))
      b vb none_left room
