-- ===== src/Codec/Len/RoundTrip.antt =====
-- `osp_dlms_read_len` on a well-formed length: it undoes `osp_dlms_write_len`.
use openspodes.Prelude.{
  ℕ, zero, suc, ◌+◌, ◌*◌, ◌^◌, ◌≤◌, ◌<◌, ◌≡◌, refl, sym, ap, ◌∙◌, List, [], ◌∷◌, ◌++◌, length,
  length-append, arith, u32, ◌<<◌, bit_or, false, ◌==◌,
}
use native.Mathlib.Decide.{dec_lt}
use openspodes.Prelude.Bits.{or_fields, and_mask}
use openspodes.Err.{ok, ◌>>◌}
use openspodes.Buf.{Buf, IsBuf, next, buf_unread}
use openspodes.Buf.View.{
  Reads, Consumes, Consumes-refl, next_lem, pending, content, buf_unread-pending,
}
use openspodes.Buf.Compose.{Reads-then, Writes-Reads}
use openspodes.Codec.Len.{min_octets_u32, read_octets, read_len_rest, dlms_read_len, dlms_write_len}
use openspodes.Codec.Len.Format.{
  big_endian, len_octets, short_form, long_form, write_len_fits, min_octets_range,
  length-big_endian,
}

-- The number that octets stand for, highest first, behind the octets read so far.
abbrev pub number : ℕ → List ℕ → ℕ
number acc [] = acc
number acc (x ∷ xs) = number (acc * 256 + x) xs

abbrev pub AllBytes : List ℕ → Type 0
AllBytes [] = Unit
AllBytes (x ∷ xs) = (x < 256) × AllBytes xs

le-number : (xs : List ℕ) (acc : ℕ) → acc ≤ number acc xs
le-number [] acc = omega arith
le-number (x ∷ xs) acc = omega (arith, le-number xs (acc * 256 + x))

shift_in :
    (acc x : ℕ) → x < 256 → acc * 256 + x < 2 ^ 32 → bit_or (u32 (acc << 8)) x ≡ acc * 256 + x
shift_in acc x hx h =
    let e : u32 (acc << 8) ≡ acc * 2 ^ 8 = omega arith in rw e (or_fields 8 acc x hx)

pub read_octets_lem :
    (xs rest : List ℕ) (acc : ℕ) (b : Buf)
    → IsBuf b
    → AllBytes xs
    → number acc xs < 2 ^ 32
    → pending b ≡ xs ++ rest
    → Reads (read_octets (length xs) acc) b (number acc xs) rest
unfolding read_octets
read_octets_lem [] rest acc b v bytes small p = (b, refl, Consumes-refl b rest v p)
read_octets_lem (x ∷ xs) rest acc b v bytes small p =
    Reads-then next (λ y. read_octets (length xs) (bit_or (u32 (acc << 8)) y)) b x
      (number acc (x ∷ xs)) (xs ++ rest) rest (next_lem b v x (xs ++ rest) p)
      λ c q.
        rw (shift_in acc x bytes.0 (omega (arith, le-number xs (acc * 256 + x))))
          (read_octets_lem xs rest (acc * 256 + x) c q.valid bytes.1 small q.left)

-- Few octets are enough for a uint32_t.
pub number-big_endian : (v : ℕ) → v < 2 ^ 32 → number 0 (big_endian (min_octets_u32 v) v) ≡ v
unfolding min_octets_u32 big_endian
number-big_endian v h = ground arith

pub AllBytes-big_endian : (n v : ℕ) → AllBytes (big_endian n v)
unfolding big_endian
AllBytes-big_endian zero v = tt
AllBytes-big_endian (suc n) v = (omega arith, AllBytes-big_endian n v)

pub not_empty :
    (b : Buf) (x : ℕ) (rest : List ℕ) → IsBuf b → pending b ≡ x ∷ rest → (buf_unread b == 0) ≡ false
not_empty b x rest v p = ground (arith, buf_unread-pending b v, ap length p)

-- The first octet is read, and decides how to go on.
read_first :
    (b : Buf) (x r : ℕ) (more rest : List ℕ)
    → IsBuf b
    → pending b ≡ x ∷ more
    → ((c : Buf) → Consumes b more c → Reads (read_len_rest x) c r rest)
    → Reads dlms_read_len b r rest
unfolding dlms_read_len
read_first b x r more rest v p go =
    rw (not_empty b x more v p)
      (Reads-then next read_len_rest b x r more rest (next_lem b v x more p) go)

pub rest_short : (x : ℕ) (b : Buf) → x < 0x80 → read_len_rest x b ≡ ok x b
unfolding read_len_rest
rest_short x b h = ground arith

pub rest_long :
    (n : ℕ) (b : Buf)
    → IsBuf b
    → 1 ≤ n
    → n ≤ 4
    → n ≤ length (pending b)
    → read_len_rest (0x80 + n) b ≡ read_octets n 0 b
unfolding read_len_rest
rest_long n b v lo hi more = ground (arith, buf_unread-pending b v, and_mask 7 (0x80 + n))

-- The length of any uint32_t is read back, and nothing behind it.
pub read_len_lem :
    (v : ℕ) (rest : List ℕ) (b : Buf)
    → IsBuf b
    → v < 2 ^ 32
    → pending b ≡ len_octets v ++ rest
    → Reads dlms_read_len b v rest
read_len_lem v rest b valid small p = elim (dec_lt v 0x80) [
  | yes h ↦
      read_first b v v rest rest valid (p ∙ ap (λ t. t ++ rest) (short_form v b valid h))
        λ c q. (c, rest_short v c h, Consumes-refl c rest q.valid q.left)
  | no h ↦
      let n = min_octets_u32 v in
      let more = big_endian n v ++ rest in
      read_first b (0x80 + n) v more rest valid
        (p ∙ ap (λ t. t ++ rest) (long_form v b valid (omega arith)))
        λ c q.
          let (d, e, q') =
            read_octets_lem (big_endian n v) rest 0 c q.valid (AllBytes-big_endian n v)
              (omega (arith, number-big_endian v small)) q.left in
          (
            d,
            rest_long n c q.valid (min_octets_range v).0 (min_octets_range v).1 (
                  omega (
                    arith,
                    ap length q.left,
                    length-append (big_endian n v) rest,
                    length-big_endian n v,
                  ))
                ∙ ap (λ (t : ℕ). read_octets t 0 c) (sym (length-big_endian n v))
                ∙ e
                ∙ ap (λ (t : ℕ). ok t d) (number-big_endian v small),
            q',
          )
]

-- A uint32_t written by `osp_dlms_write_len` into a buffer with nothing left to read is what
-- `osp_dlms_read_len` returns next, and then nothing is left.
pub read_len-write_len :
    (v : ℕ) (b : Buf)
    → IsBuf b
    → v < 2 ^ 32
    → pending b ≡ []
    → b.wr + length (len_octets v) ≤ b.size
    → (b' : Buf) × ((dlms_write_len v >> dlms_read_len) b ≡ ok v b')
      × (content b' ≡ content b ++ len_octets v)
      × (pending b' ≡ [])
read_len-write_len v b valid small none_left room =
    Writes-Reads (dlms_write_len v) dlms_read_len b (len_octets v) v valid none_left
      (write_len_fits v b valid room) λ c w p. read_len_lem v [] c w small p
