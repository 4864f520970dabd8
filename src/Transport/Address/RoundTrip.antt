-- ===== src/Transport/Address/RoundTrip.antt =====
-- What `osp_hdlc_address_init` writes, and that `osp_hdlc_address_value` reads it back.
use openspodes.Prelude.{
  ℕ, zero, suc, ◌+◌, ◌*◌, ◌/◌, ◌%◌, ◌^◌, ◌≤◌, ◌<◌, ◌≡◌, refl, ap, ◌∙◌, List, [], ◌∷◌, length, arith,
  u8, u32, ◌<<◌, ◌>>>◌, bit_and, bit_or,
}
use native.Mathlib.Decide.{dec_lt}
use native.Mathlib.Nat.{
  one-le-pow, pow-suc, le_trans, mul_assoc, le-mul_of_pos_right, mul-le-mul_right,
}
use openspodes.Prelude.Bits.{or_fields, and_mask}
use openspodes.Codec.Len.RoundTrip.{AllBytes}
use openspodes.Transport.Address.{
  address_groups, address_octets, hdlc_address_init, hdlc_address_value, address_value_loop,
  HdlcAddress,
}

-- Every octet but the last is even, and the last is odd: where a reader of a frame stops.
abbrev pub IsAddress : HdlcAddress → Type 0
IsAddress [] = ⊥
IsAddress (x ∷ []) = (x < 256) × (x % 2 ≡ 1)
IsAddress (x ∷ y ∷ r) = (x < 256) × (x % 2 ≡ 0) × IsAddress (y ∷ r)

-- The octet for a group of seven bits.
last_octet : (g : ℕ) → g < 128 → bit_or (u8 (g << 1)) 0x01 ≡ 2 * g + 1
last_octet g h =
    let e : u8 (g << 1) ≡ g * 2 ^ 1 = omega arith in
    rw e (or_fields 1 g 1 (omega arith) ∙ omega arith)

inner_octet : (g : ℕ) → g < 128 → bit_or (u8 (g << 1)) 0 ≡ 2 * g
inner_octet g h =
    let e : u8 (g << 1) ≡ g * 2 ^ 1 = omega arith in
    rw e (or_fields 1 g 0 (omega arith) ∙ omega arith)

module _ (v : ℕ) where
  groups_one : 1 ≤ v → v < 2 ^ 7 → address_groups 4 v ≡ v ∷ []
  unfolding address_groups
  groups_one h l = ground (arith, and_mask 7 v)

  groups_two : 2 ^ 7 ≤ v → v < 2 ^ 14 → address_groups 4 v ≡ (v % 128) ∷ (v / 2 ^ 7) ∷ []
  unfolding address_groups
  groups_two h l = ground (arith, and_mask 7 v, and_mask 7 (v / 128))

  groups_three :
      2 ^ 14 ≤ v
      → v < 2 ^ 21
      → address_groups 4 v ≡ (v % 128) ∷ (v / 2 ^ 7 % 128) ∷ (v / 2 ^ 14) ∷ []
  unfolding address_groups
  groups_three h l = ground (arith, and_mask 7 v, and_mask 7 (v / 128), and_mask 7 (v / 128 / 128))

  -- The loop stops at four groups, whatever is left of the value.
  groups_four :
      2 ^ 21 ≤ v
      → address_groups 4 v
        ≡ (v % 128) ∷ (v / 2 ^ 7 % 128) ∷ (v / 2 ^ 14 % 128) ∷ (v / 2 ^ 21 % 128) ∷ []
  unfolding address_groups
  groups_four h = ground (
    arith,
    and_mask 7 v,
    and_mask 7 (v / 128),
    and_mask 7 (v / 128 / 128),
    and_mask 7 (v / 128 / 128 / 128),
  )

-- The octets of one to four groups, given lowest first.
one_octet : (a : ℕ) → a < 128 → address_octets 1 (a ∷ []) ≡ (2 * a + 1) ∷ []
unfolding address_octets
one_octet a h = rw (last_octet a h) refl

two_octets :
    (a b : ℕ) → a < 128 → b < 128 → address_octets 2 (a ∷ b ∷ []) ≡ (2 * b) ∷ (2 * a + 1) ∷ []
unfolding address_octets
two_octets a b h k = rw (last_octet a h, inner_octet b k) refl

three_octets :
    (a b c : ℕ)
    → a < 128
    → b < 128
    → c < 128
    → address_octets 3 (a ∷ b ∷ c ∷ []) ≡ (2 * c) ∷ (2 * b) ∷ (2 * a + 1) ∷ []
unfolding address_octets
three_octets a b c h k l = rw (last_octet a h, inner_octet b k, inner_octet c l) refl

four_octets :
    (a b c d : ℕ)
    → a < 128
    → b < 128
    → c < 128
    → d < 128
    → address_octets 4 (a ∷ b ∷ c ∷ d ∷ []) ≡ (2 * d) ∷ (2 * c) ∷ (2 * b) ∷ (2 * a + 1) ∷ []
unfolding address_octets
four_octets a b c d h k l m =
    rw (last_octet a h, inner_octet b k, inner_octet c l, inner_octet d m) refl

-- What an address is, in arithmetic; values of more than 28 bits lose the rest.
data Shape (v : ℕ) (a : HdlcAddress) : Type 0 where
  one : v < 2 ^ 7 → a ≡ (2 * v + 1) ∷ [] → Shape v a
  two : v < 2 ^ 14 → a ≡ (2 * (v / 2 ^ 7)) ∷ (2 * (v % 128) + 1) ∷ [] → Shape v a
  three :
      v < 2 ^ 21
      → a ≡ (2 * (v / 2 ^ 14)) ∷ (2 * (v / 2 ^ 7 % 128)) ∷ (2 * (v % 128) + 1) ∷ []
      → Shape v a
  four :
      a
        ≡ (2 * (v / 2 ^ 21 % 128))
          ∷ (2 * (v / 2 ^ 14 % 128))
          ∷ (2 * (v / 2 ^ 7 % 128))
          ∷ (2 * (v % 128) + 1)
          ∷ []
      → Shape v a

init-groups :
    (v : ℕ) (tmp : List ℕ)
    → 1 ≤ v
    → address_groups 4 v ≡ tmp
    → hdlc_address_init v ≡ address_octets (length tmp) tmp
unfolding hdlc_address_init
init-groups v tmp h e = rw e (ground arith)

init-Shape : (v : ℕ) → Shape v (hdlc_address_init v)
init-Shape v = elim (dec_lt 0 v) [
  | no z ↦
      let e : v ≡ 0 = omega arith in rw e (one (omega arith) (unfold hdlc_address_init in refl))
  | yes p ↦ elim (dec_lt v (2 ^ 7)) [
    | yes h ↦ one h (init-groups v _ p (groups_one v p h) ∙ one_octet v h)
    | no h ↦ elim (dec_lt v (2 ^ 14)) [
      | yes k ↦ two k (
          init-groups v _ p (groups_two v (omega arith) k)
          ∙ two_octets _ _ (omega arith) (omega arith))
      | no k ↦ elim (dec_lt v (2 ^ 21)) [
        | yes l ↦ three l (
            init-groups v _ p (groups_three v (omega arith) l)
            ∙ three_octets _ _ _ (omega arith) (omega arith) (omega arith))
        | no l ↦ four (
            init-groups v _ p (groups_four v (omega arith))
            ∙ four_octets _ _ _ _ (omega arith) (omega arith) (omega arith) (omega arith))
      ]
    ]
  ]
]

-- One octet more shifts its group in.
value_step :
    (val x : ℕ) (xs : List ℕ)
    → val < 2 ^ 21
    → x < 256
    → address_value_loop val (x ∷ xs) ≡ address_value_loop (val * 128 + x / 2) xs
unfolding address_value_loop
value_step val x xs h k =
    let e : u32 (val << 7) ≡ val * 2 ^ 7 = omega arith in
    let f : bit_and (x >>> 1) 0x7F ≡ x / 2 = omega (arith, and_mask 7 (x / 2)) in
    ap (λ (t : ℕ). address_value_loop t xs) (rw (e, f) (or_fields 7 val (x / 2) (omega arith)))

-- The value that the octets stand for, as the loop adds it up.
abbrev groups_value : ℕ → List ℕ → ℕ
groups_value val [] = val
groups_value val (x ∷ xs) = groups_value (val * 128 + x / 2) xs

below_bound : (a n : ℕ) → a * 128 ^ n ≤ 2 ^ 21 → a ≤ 2 ^ 21
below_bound a n h = le_trans (le-mul_of_pos_right a (one-le-pow n 128 (omega arith))) h

scaled : (val n : ℕ) → (val + 1) * 128 * 128 ^ n ≡ (val + 1) * 128 ^ suc n
scaled val n =
    mul_assoc (val + 1) 128 (128 ^ n) ∙ ap (λ (t : ℕ). (val + 1) * t) (omega (arith, pow-suc 128 n))

next_bound :
    (val x n : ℕ)
    → x < 256
    → (val + 1) * 128 ^ suc n ≤ 2 ^ 21
    → (val * 128 + x / 2 + 1) * 128 ^ n ≤ 2 ^ 21
next_bound val x n h k =
    le_trans {m = (val + 1) * 128 * 128 ^ n} (mul-le-mul_right (128 ^ n) (omega arith))
      (rw (scaled val n) k)

loop-groups_value :
    (xs : List ℕ) (val n : ℕ)
    → AllBytes xs
    → (val + 1) * 128 ^ n ≤ 2 ^ 21
    → length xs ≤ n + 1
    → address_value_loop val xs ≡ groups_value val xs
loop-groups_value [] val n h k l = unfold address_value_loop in refl
loop-groups_value (x ∷ []) val n h k l =
    value_step val x [] (omega (arith, below_bound (val + 1) n k)) h.0
    ∙ unfold address_value_loop in refl
loop-groups_value (x ∷ y ∷ r) val zero h k l = absurd (omega arith)
loop-groups_value (x ∷ y ∷ r) val (suc n) h k l =
    value_step val x (y ∷ r) (omega (arith, below_bound (val + 1) (suc n) k)) h.0
    ∙ loop-groups_value (y ∷ r) (val * 128 + x / 2) n h.1 (next_bound val x n h.0 k) (omega arith)

-- `osp_hdlc_address_value` gives back the low 28 bits of whatever value `osp_hdlc_address_init` was
-- given, so every value below 2 ^ 28 itself.
pub address_value-address_init : (v : ℕ) → hdlc_address_value (hdlc_address_init v) ≡ v % 2 ^ 28
unfolding hdlc_address_value
address_value-address_init v = elim (init-Shape v) [
  | one h e ↦ rw e (loop-groups_value _ 0 3 (omega arith) (omega arith) (omega arith) ∙ omega arith)
  | two h e ↦ rw e (loop-groups_value _ 0 3 (omega arith) (omega arith) (omega arith) ∙ omega arith)
  | three h e ↦
      rw e (loop-groups_value _ 0 3 (omega arith) (omega arith) (omega arith) ∙ omega arith)
  | four e ↦ rw e (loop-groups_value _ 0 3 (omega arith) (omega arith) (omega arith) ∙ omega arith)
]

-- An address that `osp_hdlc_address_init` writes has one to four octets, all even but the last,
-- which is odd.
pub init-IsAddress : (v : ℕ) → IsAddress (hdlc_address_init v) × (length (hdlc_address_init v) ≤ 4)
init-IsAddress v = elim (init-Shape v) [
  | one h e ↦ rw e (omega arith)
  | two h e ↦ rw e (omega arith)
  | three h e ↦ rw e (omega arith)
  | four e ↦ rw e (omega arith)
]
