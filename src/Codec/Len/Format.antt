-- ===== src/Codec/Len/Format.antt =====
-- The definite length as a list of octets, what `osp_dlms_write_len` writes, and when it refuses.
use openspodes.Prelude.{
  ℕ, zero, suc, ◌+◌, ◌*◌, ◌≤◌, ◌<◌, ◌≡◌, refl, ap, ◌∙◌, ◌⊎◌, inl, inr, List, [], ◌∷◌, length, arith,
  ltb, if◌then◌else◌, u8, ◌>>>◌, bit_or,
}
use openspodes.Err.{err, nomem, ◌>>◌}
use openspodes.Buf.{Buf, IsBuf, put}
use openspodes.Buf.View.{Writes, Appends-nil, put_lem, buf_free-sub}
use openspodes.Buf.Compose.{Writes-then}
use openspodes.Codec.Len.{min_octets_u32, write_octets, dlms_write_len}
use native.Mathlib.Decide.{dec_lt}
use openspodes.Prelude.Table.{agree_below, holds_below}

-- The `n` lowest octets of `v`, the highest of them first.
unfoldable pub big_endian : ℕ → ℕ → List ℕ
big_endian zero v = []
big_endian (suc n) v = u8 (v >>> 8 * n) ∷ big_endian n v

unfoldable pub len_octets : ℕ → List ℕ
len_octets v =
    if ltb v 0x80 then v ∷ [] else (0x80 + min_octets_u32 v) ∷ big_endian (min_octets_u32 v) v

pub length-big_endian : (n v : ℕ) → length (big_endian n v) ≡ n
unfolding big_endian
length-big_endian zero v = refl
length-big_endian (suc n) v = ap suc (length-big_endian n v)

pub min_octets_range : (v : ℕ) → (1 ≤ min_octets_u32 v) × (min_octets_u32 v ≤ 4)
unfolding min_octets_u32
min_octets_range v = ground arith

-- `0x80 | n` for a count of octets.
count_octet : (n : ℕ) → n < 5 → u8 (bit_or 0x80 n) ≡ 0x80 + n
unfolding holds_below
count_octet n h = agree_below 5 (λ i. u8 (bit_or 0x80 i)) (λ i. 0x80 + i) n refl h

pub write_octets_lem :
    (n v : ℕ) (b : Buf) → IsBuf b → b.wr + n ≤ b.size → Writes (write_octets n v) b (big_endian n v)
unfolding write_octets big_endian
write_octets_lem zero v b h r = (b, refl, Appends-nil b h)
write_octets_lem (suc n) v b h r =
    Writes-then (put (u8 (v >>> 8 * n))) (write_octets n v) b (u8 (v >>> 8 * n) ∷ [])
      (big_endian n v) (put_lem _ b h (omega arith))
      λ c a. write_octets_lem n v c a.valid (omega (arith, a.moved))

-- The two forms, each with its test on the room left.
module _ (v : ℕ) (b : Buf) (valid : IsBuf b) where
  pub short_form : v < 0x80 → len_octets v ≡ v ∷ []
  unfolding len_octets
  short_form h = ground arith

  pub long_form :
      0x80 ≤ v → len_octets v ≡ (0x80 + min_octets_u32 v) ∷ big_endian (min_octets_u32 v) v
  unfolding len_octets
  long_form h = ground arith

  length-len_octets : 0x80 ≤ v → length (len_octets v) ≡ 1 + min_octets_u32 v
  length-len_octets h = rw (long_form h) (omega (arith, length-big_endian (min_octets_u32 v) v))

  write_short : v < 0x80 → b.wr < b.size → dlms_write_len v b ≡ put (u8 v) b
  unfolding dlms_write_len
  write_short h r = ground (arith, buf_free-sub b valid)

  write_long :
      0x80 ≤ v
      → b.wr + (1 + min_octets_u32 v) ≤ b.size
      → dlms_write_len v b
        ≡ (put (u8 (bit_or 0x80 (min_octets_u32 v))) >> write_octets (min_octets_u32 v) v) b
  unfolding dlms_write_len
  write_long h r = ground (arith, buf_free-sub b valid)

  -- With room for all of its octets the length is written.
  pub write_len_fits :
      b.wr + length (len_octets v) ≤ b.size → Writes (dlms_write_len v) b (len_octets v)
  write_len_fits r = elim (dec_lt v 0x80) [
    | yes h ↦ rw (short_form h) (
        let e : u8 v ≡ v = omega arith in
        let (c, p, a) = put_lem v b valid (omega (arith, r, ap length (short_form h))) in
        (c, write_short h (omega (arith, r, ap length (short_form h))) ∙ rw e p, a))
    | no h ↦ long (omega arith) (omega (arith, r, length-len_octets (omega arith)))
  ]
    where
      long :
          0x80 ≤ v
          → b.wr + (1 + min_octets_u32 v) ≤ b.size
          → Writes (dlms_write_len v) b (len_octets v)
      long h room =
          let n = min_octets_u32 v in
          let (c, p, a) =
            Writes-then (put (u8 (bit_or 0x80 n))) (write_octets n v) b ((0x80 + n) ∷ [])
              (big_endian n v)
              (rw (count_octet n (omega (arith, min_octets_range v)))
                (put_lem (0x80 + n) b valid (omega arith)))
              (λ c a. write_octets_lem n v c a.valid (omega (arith, a.moved))) in
          rw (long_form h) (c, write_long h room ∙ p, a)

  -- Without it the call refuses, and leaves the buffer as it was.
  pub write_len_full : b.size < b.wr + length (len_octets v) → dlms_write_len v b ≡ err nomem b
  unfolding dlms_write_len len_octets
  write_len_full r = ground (arith, buf_free-sub b valid, length-big_endian (min_octets_u32 v) v)

-- `osp_dlms_write_len` writes the definite length of `v` behind what the buffer holds, and touches
-- nothing else, exactly when the room left holds all of its octets; otherwise it answers NOMEM and
-- the buffer is as it was.
pub write_len_cases :
    (v : ℕ) (b : Buf)
    → IsBuf b
    → (b.wr + length (len_octets v) ≤ b.size) × Writes (dlms_write_len v) b (len_octets v)
      ⊎ (b.size < b.wr + length (len_octets v)) × (dlms_write_len v b ≡ err nomem b)
write_len_cases v b h = elim (dec_lt b.size (b.wr + length (len_octets v))) [
  | yes full ↦ inr (full, write_len_full v b h full)
  | no fits ↦ inl (omega arith, write_len_fits v b h (omega arith))
]
