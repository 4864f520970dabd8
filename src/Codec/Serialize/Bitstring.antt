-- ===== src/Codec/Serialize/Bitstring.antt =====
-- A bit string comes back with eight bits too many.
use openspodes.Prelude.{
  ℕ, ◌+◌, ◌-◌, ◌*◌, ◌/◌, ◌^◌, ◌≤◌, ◌<◌, ◌≡◌, ap, subst, ◌∙◌, List, [], ◌∷◌, ◌++◌, length, take,
  arith, u8, u32, sub32, ◌==◌, if◌then◌else◌, length-append,
}
use openspodes.Prelude.Slices.{take-length-append, take-length}
use openspodes.Err.{ok, ◌>>◌}
use openspodes.Buf.{Buf, IsBuf, octet, octets_at, skip, put, put_all, buf_unread}
use openspodes.Buf.View.{
  Reads, pending, content, put_lem, put_all_lem, buf_unread-pending, buf_free-sub,
  octets_at-pending,
}
use openspodes.Buf.Compose.{Reads-then, Writes-then, skip_over}
use openspodes.Codec.Len.Format.{len_octets}
use openspodes.Codec.Axdr.RoundTrip.{octet_at}
use openspodes.Codec.Wire.{Emits, Takes, Emits-then, Takes-then, Emits-Takes}
use openspodes.Codec.Wire.Parts.{Emits-tag, Takes-tag, Emits-len, Takes-len}
use openspodes.Codec.Serialize.{
  Bits, tag_bitstring, read_bits, copy_bits, bitstring_read, put_bits, bitstring_write,
}

-- The bits fill all octets but the last.
pub record IsBits (s : Bits) : Type 0 where
  pub few : s.num_bits < 2 ^ 20
  pub whole : length s.bits ≡ (s.num_bits + 7) / 8

abbrev pub unused_bits : Bits → ℕ
unused_bits s = length s.bits * 8 - s.num_bits

abbrev pub bitstring_octets : Bits → List ℕ
bitstring_octets s = tag_bitstring ∷ (len_octets (1 + length s.bits) ++ (unused_bits s ∷ s.bits))

pub Emits-bits :
    (s : Bits)
    → IsBits s
    → Emits (put_bits s.bits s.num_bits (length s.bits)) (unused_bits s ∷ s.bits)
unfolding put_bits
Emits-bits s v b vb room =
    let e : u8 (unused_bits s) ≡ unused_bits s = omega (arith, v.whole) in
    let (c, f, a) =
      Writes-then (put (unused_bits s)) (put_all s.bits) b (unused_bits s ∷ []) s.bits
        (put_lem (unused_bits s) b vb (omega arith))
        λ d a. put_all_lem s.bits d a.valid (omega (arith, a.moved, a.same_size)) in
    (c, rw (e, take-length s.bits) (ground (arith, f, buf_free-sub b vb)), a)

-- What the reader makes of them.
abbrev pub eight_more : Bits → Bits
eight_more s = record s { num_bits = s.num_bits + 8 }

Takes-copied :
    (total unused : ℕ) (xs : List ℕ)
    → Takes
        (copy_bits total unused (length xs))
        xs
        (record { bits = xs; num_bits = sub32 total (if length xs == 0 then 0 else unused) })
unfolding copy_bits
Takes-copied total unused xs b rest v p =
    let room : length xs ≤ length (pending b) = omega (arith, ap length p, length-append xs rest) in
    let got : octets_at b (length xs) ≡ xs =
      octets_at-pending b v (length xs) room
      ∙ ap (take (length xs)) p
      ∙ take-length-append xs rest in
    let (c, e, q) = skip_over xs rest b v p in (c, ground (arith, e, got), q)

Takes-bits :
    (max_bits : ℕ) (s : Bits)
    → IsBits s
    → (1 + length s.bits) * 8 ≤ max_bits
    → Takes (read_bits max_bits (1 + length s.bits)) (unused_bits s ∷ s.bits) (eight_more s)
unfolding read_bits
Takes-bits max_bits s v fits b rest vb p =
    let n = length s.bits in
    let unused = unused_bits s in
    let room : buf_unread b ≡ 1 + n + length rest =
      omega (arith, buf_unread-pending b vb, ap length p, length-append s.bits rest) in
    let o : octet b 0 ≡ unused = octet_at b vb 0 _ p (omega arith) in
    let count : sub32 ((1 + n) * 8) (if n == 0 then 0 else unused) ≡ s.num_bits + 8 =
      ground (arith, v.whole, v.few) in
    let same : 1 + n - 1 ≡ n = omega arith in
    let (c, e, q) =
      Reads-then (skip 1) (λ _. copy_bits ((1 + n) * 8) unused n) b tt (eight_more s)
        (s.bits ++ rest) rest (skip_over (unused ∷ []) (s.bits ++ rest) b vb p)
        λ d w.
          subst (λ k. Reads (copy_bits ((1 + n) * 8) unused n) d (record s { num_bits = k }) rest)
            count (Takes-copied ((1 + n) * 8) unused s.bits d rest w.valid w.left) in
    (c, rw (o, same) (ground (arith, room, v.whole, v.few, e)), q)

pub Emits-bitstring : (s : Bits) → IsBits s → Emits (bitstring_write s) (bitstring_octets s)
unfolding bitstring_write
Emits-bitstring s v =
    let bytes : u32 (s.num_bits + 7) / 8 ≡ length s.bits = omega (arith, v.whole, v.few) in
    let len = len_octets (1 + length s.bits) in
    rw bytes (
      Emits-then (4 ∷ []) (len ++ (unused_bits s ∷ s.bits)) (Emits-tag 4)
        (Emits-then len (unused_bits s ∷ s.bits) (Emits-len (1 + length s.bits)) (Emits-bits s v)))

-- What `osp_bitstring_write` writes, `osp_bitstring_read` gives back with the same octets and eight
-- bits more than there were, where the caller allows that many.
pub bitstring_read-write :
    (max_bits : ℕ) (s : Bits) (b : Buf)
    → IsBits s
    → (1 + length s.bits) * 8 ≤ max_bits
    → IsBuf b
    → pending b ≡ []
    → b.wr + length (bitstring_octets s) ≤ b.size
    → (c : Buf) × ((bitstring_write s >> bitstring_read max_bits) b ≡ ok (eight_more s) c)
      × (content c ≡ content b ++ bitstring_octets s)
      × (pending c ≡ [])
unfolding bitstring_read
bitstring_read-write max_bits s b v fits vb none_left room =
    let len = len_octets (1 + length s.bits) in
    Emits-Takes (bitstring_octets s) (Emits-bitstring s v)
      (Takes-then _ (4 ∷ []) (len ++ (unused_bits s ∷ s.bits)) (Takes-tag 4) (
        Takes-then (read_bits max_bits) len (unused_bits s ∷ s.bits)
          (Takes-len (1 + length s.bits) (omega (arith, v.whole, v.few)))
          (Takes-bits max_bits s v fits)))
      b vb none_left room
