-- ===== src/Codec/Ber/Uint.antt =====
-- `osp_ber_read_uint` undoes `osp_ber_write_uint` where the buffer holds nothing else to read.
use openspodes.Prelude.{
  ℕ, zero, suc, ◌+◌, ◌/◌, ◌%◌, ◌^◌, ◌≤◌, ◌<◌, ◌≡◌, refl, sym, ap, ◌∙◌, List, [], ◌∷◌, ◌++◌, length,
  arith, ltb, if◌then◌else◌, u8, ◌>>>◌, bit_and, append-nil, subst,
}
use native.Mathlib.Decide.{dec_lt}
use openspodes.Prelude.Bits.{and_mask}
use openspodes.Err.{ok, ◌>>◌}
use openspodes.Buf.{Buf, IsBuf, next, put, buf_unread}
use openspodes.Buf.View.{Reads, Writes, pending, content, put_lem, buf_unread-pending, buf_free-sub}
use openspodes.Buf.Compose.{Writes-then, Writes-Reads}
use openspodes.Codec.Len.{read_octets}
use openspodes.Codec.Len.RoundTrip.{number, AllBytes, read_octets_lem}
use openspodes.Codec.Ber.{read_uint_loop, ber_read_uint, ber_write_uint}

-- One, two or four octets, so four where three would do.
unfoldable pub uint_octets : ℕ → List ℕ
uint_octets v =
    if ltb v 256
    then v ∷ []
    else if ltb v 65536
    then (v / 256) ∷ (v % 256) ∷ []
    else (v / 2 ^ 24) ∷ (v / 2 ^ 16 % 256) ∷ (v / 256 % 256) ∷ (v % 256) ∷ []

-- Each reader has a loop of its own; the two loops do the same.
same_loop : (n v : ℕ) (b : Buf) → read_uint_loop n v b ≡ read_octets n v b
unfolding read_uint_loop read_octets next
same_loop zero v b = refl
same_loop (suc n) v b = same_loop n _ _

read_uint_lem :
    (xs : List ℕ) (b : Buf)
    → IsBuf b
    → AllBytes xs
    → 1 ≤ length xs
    → length xs ≤ 4
    → number 0 xs < 2 ^ 32
    → pending b ≡ xs
    → Reads ber_read_uint b (number 0 xs) []
read_uint_lem xs b v bytes lo hi small p =
    let n : buf_unread b ≡ length xs = buf_unread-pending b v ∙ ap length p in
    let (c, e, q) = read_octets_lem xs [] 0 b v bytes small (p ∙ sym (append-nil xs)) in
    (c, run n ∙ same_loop (length xs) 0 b ∙ e, q)
  where
    run : buf_unread b ≡ length xs → ber_read_uint b ≡ read_uint_loop (length xs) 0 b
    run n = unfold ber_read_uint in ground (arith, n)

pub put_four :
    (w x y z : ℕ) (b : Buf)
    → IsBuf b
    → b.wr + 4 ≤ b.size
    → Writes (put w >> (put x >> (put y >> put z))) b (w ∷ x ∷ y ∷ z ∷ [])
put_four w x y z b v r =
    Writes-then (put w) (put x >> (put y >> put z)) b (w ∷ []) (x ∷ y ∷ z ∷ [])
      (put_lem w b v (omega arith))
      λ c a.
        Writes-then (put x) (put y >> put z) c (x ∷ []) (y ∷ z ∷ [])
          (put_lem x c a.valid (omega (arith, a.moved)))
          λ d a'.
            Writes-then (put y) (put z) d (y ∷ []) (z ∷ [])
              (put_lem y d a'.valid (omega (arith, a.moved, a'.moved)))
              λ e a''. put_lem z e a''.valid (omega (arith, a.moved, a'.moved, a''.moved))

module _ (v : ℕ) (b : Buf) (valid : IsBuf b) (room : b.wr + 5 ≤ b.size) (small : v < 2 ^ 32) where
  write_one : v < 256 → ber_write_uint v b ≡ put v b
  unfolding ber_write_uint
  write_one h = let e : u8 v ≡ v = omega arith in rw e (ground (arith, buf_free-sub b valid))

  write_two : 256 ≤ v → v < 65536 → ber_write_uint v b ≡ (put (v / 256) >> put (v % 256)) b
  unfolding ber_write_uint
  write_two h l =
      let e : u8 (v >>> 8) ≡ v / 256 = omega arith in
      let f : u8 (bit_and v 0xFF) ≡ v % 256 = omega (arith, and_mask 8 v) in
      rw (e, f) (ground (arith, buf_free-sub b valid))

  write_four :
      65536 ≤ v
      → ber_write_uint v b
        ≡ (put (v / 2 ^ 24) >> (put (v / 2 ^ 16 % 256) >> (put (v / 256 % 256) >> put (v % 256)))) b
  unfolding ber_write_uint
  write_four h =
      let e : u8 (v >>> 24) ≡ v / 2 ^ 24 = omega arith in
      let f : u8 (bit_and v 0xFF) ≡ v % 256 = omega (arith, and_mask 8 v) in
      rw (e, f) (ground (arith, buf_free-sub b valid))

  octets_one : v < 256 → uint_octets v ≡ v ∷ []
  unfolding uint_octets
  octets_one h = ground arith

  octets_two : 256 ≤ v → v < 65536 → uint_octets v ≡ (v / 256) ∷ (v % 256) ∷ []
  unfolding uint_octets
  octets_two h l = ground arith

  octets_four :
      65536 ≤ v
      → uint_octets v ≡ (v / 2 ^ 24) ∷ (v / 2 ^ 16 % 256) ∷ (v / 256 % 256) ∷ (v % 256) ∷ []
  unfolding uint_octets
  octets_four h = ground arith

  -- The call writes these octets; its tests ask for one octet of room more than it needs.
  write_uint_fits : Writes (ber_write_uint v) b (uint_octets v)
  write_uint_fits = elim (dec_lt v 256) [
    | yes h ↦
        let (c, e, a) = put_lem v b valid (omega arith) in rw (octets_one h) (c, write_one h ∙ e, a)
    | no h ↦ elim (dec_lt v 65536) [
      | yes l ↦
          let (c, e, a) =
            Writes-then (put (v / 256)) (put (v % 256)) b ((v / 256) ∷ []) ((v % 256) ∷ [])
              (put_lem _ b valid (omega arith))
              (λ c a. put_lem _ c a.valid (omega (arith, a.moved))) in
          rw (octets_two (omega arith) l) (c, write_two (omega arith) l ∙ e, a)
      | no l ↦
          let (c, e, a) =
            put_four (v / 2 ^ 24) (v / 2 ^ 16 % 256) (v / 256 % 256) (v % 256) b valid
              (omega arith) in
          rw (octets_four (omega arith)) (c, write_four (omega arith) ∙ e, a)
    ]
  ]

  uint_octets-number :
      AllBytes (uint_octets v)
      × (1 ≤ length (uint_octets v))
      × (length (uint_octets v) ≤ 4)
      × (number 0 (uint_octets v) ≡ v)
  unfolding uint_octets
  uint_octets-number = ground arith

  -- A uint32_t written by `osp_ber_write_uint`, with five octets of room, into a buffer with nothing
  -- left to read, is what `osp_ber_read_uint` returns next. Its octets are one below 256, two below
  -- 65536 and four from there on: below 2 ^ 24 that is one more than it needs, and the first is 0.
  pub read_uint-write_uint :
      pending b ≡ []
      → (b' : Buf) × ((ber_write_uint v >> ber_read_uint) b ≡ ok v b')
        × (content b' ≡ content b ++ uint_octets v)
        × (pending b' ≡ [])
  read_uint-write_uint none_left =
      let (bytes, lo, hi, n) = uint_octets-number in
      Writes-Reads (ber_write_uint v) ber_read_uint b (uint_octets v) v valid none_left
        write_uint_fits
        λ c w p.
          subst (λ t. Reads ber_read_uint c t []) n
            (read_uint_lem (uint_octets v) c w bytes lo hi (omega (arith, n)) (p ∙ append-nil _))
