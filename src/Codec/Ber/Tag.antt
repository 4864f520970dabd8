-- ===== src/Codec/Ber/Tag.antt =====
-- BER tags: `osp_ber_read_tag` undoes `osp_ber_write_tag`.
use openspodes.Prelude.{
  ℕ, ◌+◌, ◌*◌, ◌/◌, ◌%◌, ◌^◌, ◌≤◌, ◌<◌, ◌≡◌, refl, ap, ◌∙◌, Bool, true, false, List, [], ◌∷◌,
  length, arith, ltb, if◌then◌else◌, u8, ◌<<◌, bit_and, bit_or,
}
use native.Mathlib.Decide.{dec_lt}
use openspodes.Prelude.Bits.{or_fields, and_mask}
use openspodes.Prelude.Table.{agree_below, holds_below}
use openspodes.Err.{ok, ◌>>◌}
use openspodes.Buf.{Buf, IsBuf, put}
use openspodes.Buf.View.{Writes, Appends-nil, put_lem, buf_free-sub}
use openspodes.Buf.Compose.{Writes-then}
use openspodes.Codec.Ber.{tag_groups, write_groups, ber_write_tag}

-- The octets of a tag, in arithmetic: class, constructed bit and number, in the short form below
-- 31 and with groups of seven bits above.
abbrev pub tag_first : ℕ → Bool → ℕ
tag_first tag_class constructed = tag_class * 64 + (if constructed then 32 else 0)

unfoldable pub tag_octets : ℕ → Bool → ℕ → List ℕ
tag_octets tag_class constructed n =
    let first = tag_first tag_class constructed in
    if ltb n 31
    then (first + n) ∷ []
    else if ltb n 128
    then (first + 31) ∷ n ∷ []
    else (first + 31) ∷ (n / 128 + 128) ∷ (n % 128) ∷ []

first_octet :
    (c : ℕ) (k : Bool)
    → c < 4
    → u8 (bit_or (bit_and c 0x03 << 6) ((if k then 1 else 0) << 5)) ≡ tag_first c k
unfolding holds_below
first_octet c true h =
    agree_below 4 (λ i. u8 (bit_or (bit_and i 0x03 << 6) 0x20)) (λ i. i * 64 + 32) c refl h
first_octet c false h =
    agree_below 4 (λ i. u8 (bit_or (bit_and i 0x03 << 6) 0)) (λ i. i * 64 + 0) c refl h

with_number : (c : ℕ) (k : Bool) (n : ℕ) → n < 32 → bit_or (tag_first c k) n ≡ tag_first c k + n
with_number c true n h =
    let e : tag_first c true ≡ (c * 2 + 1) * 2 ^ 5 = omega arith in
    rw e (or_fields 5 (c * 2 + 1) n h)
with_number c false n h =
    let e : tag_first c false ≡ (c * 2) * 2 ^ 5 = omega arith in rw e (or_fields 5 (c * 2) n h)

continued : (n : ℕ) → n < 128 → bit_or n 0x80 ≡ n + 128
unfolding holds_below
continued n h = agree_below 128 (λ i. bit_or i 0x80) (λ i. i + 128) n refl h

last_group : (n : ℕ) → n < 128 → bit_or n 0 ≡ n
unfolding holds_below
last_group n h = agree_below 128 (λ i. bit_or i 0) (λ i. i) n refl h

groups_one : (n : ℕ) → n < 128 → tag_groups 2 n ≡ n ∷ []
unfolding tag_groups
groups_one n h = ground (arith, and_mask 7 n)

groups_two : (n : ℕ) → 128 ≤ n → n < 256 → tag_groups 2 n ≡ (n % 128) ∷ (n / 128) ∷ []
unfolding tag_groups
groups_two n h k = ground (arith, and_mask 7 n, and_mask 7 (n / 128))

group_one :
    (n : ℕ) (b : Buf)
    → IsBuf b
    → n < 128
    → b.wr < b.size
    → Writes (write_groups 1 (n ∷ [])) b (n ∷ [])
unfolding write_groups
group_one n b v h r =
    Writes-then (put (bit_or n 0)) (λ s. ok tt s) b (n ∷ []) []
      (rw (last_group n h) (put_lem n b v r)) λ c a. (c, refl, Appends-nil c a.valid)

group_two :
    (lo hi : ℕ) (b : Buf)
    → IsBuf b
    → lo < 128
    → hi < 128
    → b.wr + 2 ≤ b.size
    → Writes (write_groups 2 (lo ∷ hi ∷ [])) b ((hi + 128) ∷ lo ∷ [])
unfolding write_groups
group_two lo hi b v hl hh r =
    Writes-then (put (bit_or hi 0x80)) (write_groups 1 (lo ∷ hi ∷ [])) b ((hi + 128) ∷ []) (lo ∷ [])
      (rw (continued hi hh) (put_lem (hi + 128) b v (omega arith)))
      λ c a. group_one lo c a.valid hl (omega (arith, a.moved))

module _ (c : ℕ) (k : Bool) (n : ℕ) (hc : c < 4) where
  pub octets_short : n < 31 → tag_octets c k n ≡ (tag_first c k + n) ∷ []
  unfolding tag_octets
  octets_short h = ground arith

  pub octets_one : 31 ≤ n → n < 128 → tag_octets c k n ≡ (tag_first c k + 31) ∷ n ∷ []
  unfolding tag_octets
  octets_one h l = ground arith

  pub octets_two :
      128 ≤ n → tag_octets c k n ≡ (tag_first c k + 31) ∷ (n / 128 + 128) ∷ (n % 128) ∷ []
  unfolding tag_octets
  octets_two h = ground arith

  module _ (b : Buf) (v : IsBuf b) where
    write_tag_short : n < 31 → b.wr + 1 ≤ b.size → Writes (ber_write_tag c k n) b (tag_octets c k n)
    unfolding ber_write_tag
    write_tag_short h r =
        let (d, e, a) = put_lem (tag_first c k + n) b v (omega arith) in
        rw (octets_short h) (
          d,
          ground (arith, e, first_octet c k hc, with_number c k n (omega arith), buf_free-sub b v),
          a,
        )

    write_tag_long :
        (temp : List ℕ)
        → 31 ≤ n
        → tag_groups 2 n ≡ temp
        → b.wr + (1 + length temp) ≤ b.size
        → ber_write_tag c k n b ≡ (put (tag_first c k + 31) >> write_groups (length temp) temp) b
    unfolding ber_write_tag
    write_tag_long temp h e r =
        ground (arith, e, first_octet c k hc, with_number c k 31 (omega arith), buf_free-sub b v)

    write_tag_one :
        31 ≤ n → n < 128 → b.wr + 2 ≤ b.size → Writes (ber_write_tag c k n) b (tag_octets c k n)
    write_tag_one h l r =
        let (d, e, a) =
          Writes-then (put (tag_first c k + 31)) (write_groups 1 (n ∷ [])) b
            ((tag_first c k + 31) ∷ []) (n ∷ []) (put_lem _ b v (omega arith))
            (λ d a. group_one n d a.valid l (omega (arith, a.moved))) in
        rw (octets_one h l) (d, write_tag_long (n ∷ []) h (groups_one n l) (omega arith) ∙ e, a)

    write_tag_two :
        128 ≤ n → n < 256 → b.wr + 3 ≤ b.size → Writes (ber_write_tag c k n) b (tag_octets c k n)
    write_tag_two h l r =
        let temp : List ℕ = (n % 128) ∷ (n / 128) ∷ [] in
        let (d, e, a) =
          Writes-then (put (tag_first c k + 31)) (write_groups 2 temp) b ((tag_first c k + 31) ∷ [])
            ((n / 128 + 128) ∷ (n % 128) ∷ []) (put_lem _ b v (omega arith))
            (λ d a.
              group_two (n % 128) (n / 128) d a.valid (omega arith) (omega arith)
                (omega (arith, a.moved))) in
        rw (octets_two h)
          (d, write_tag_long temp (omega arith) (groups_two n h l) (omega arith) ∙ e, a)

    -- With room for all of its octets the tag is written.
    pub write_tag_fits :
        n < 256
        → b.wr + length (tag_octets c k n) ≤ b.size
        → Writes (ber_write_tag c k n) b (tag_octets c k n)
    write_tag_fits l r = elim (dec_lt n 31) [
      | yes h ↦ write_tag_short h (omega (arith, r, ap length (octets_short h)))
      | no h ↦ elim (dec_lt n 128) [
        | yes h' ↦
            write_tag_one (omega arith) h'
              (omega (arith, r, ap length (octets_one (omega arith) h')))
        | no h' ↦
            write_tag_two (omega arith) l (omega (arith, r, ap length (octets_two (omega arith))))
      ]
    ]
