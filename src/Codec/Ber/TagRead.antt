-- ===== src/Codec/Ber/TagRead.antt =====
-- BER tags read back: `osp_ber_read_tag` undoes `osp_ber_write_tag`.
use openspodes.Prelude.{
  ℕ, suc, ◌+◌, ◌*◌, ◌/◌, ◌%◌, ◌≤◌, ◌<◌, ◌≡◌, refl, ap, ◌∙◌, Bool, List, [], ◌∷◌, ◌++◌, length,
  arith, if◌then◌else◌, u8, ◌<<◌, ◌>>>◌, bit_and, bit_or,
}
use native.Mathlib.Decide.{dec_lt}
use openspodes.Prelude.Bits.{or_fields, and_mask}
use openspodes.Prelude.Table.{agree_below, holds_below}
use openspodes.Err.{ok, ◌>>◌}
use openspodes.Buf.{Buf, IsBuf, buf_unread}
use openspodes.Buf.View.{Reads, Consumes, Consumes-refl, pending, content, buf_unread-pending}
use openspodes.Buf.Compose.{Reads-first, Writes-Reads}
use openspodes.Codec.Ber.{BerTag, ber_write_tag, ber_read_tag, ber_read_tag_number, read_long_tag}
use openspodes.Codec.Ber.Tag.{
  tag_first, tag_octets, octets_short, octets_one, octets_two, write_tag_fits,
}

abbrev pub tag_with : ℕ → Bool → ℕ → BerTag
tag_with c k n = record { tag_class = c; tag_constructed = (if k then 1 else 0); tag_number = n }

top_bit_clear : (x : ℕ) → x < 128 → bit_and x 0x80 ≡ 0
unfolding holds_below
top_bit_clear x h = agree_below 128 (λ i. bit_and i 0x80) (λ i. 0) x refl h

top_bit_set : (x : ℕ) → x < 128 → bit_and (x + 128) 0x80 ≡ 128
unfolding holds_below
top_bit_set x h = agree_below 128 (λ i. bit_and (i + 128) 0x80) (λ i. 128) x refl h

-- One more group of seven bits behind a number of one bit.
add_group : (q x : ℕ) → q < 2 → x < 256 → u8 (bit_or (q << 7) (bit_and x 0x7F)) ≡ q * 128 + x % 128
add_group q x h l = rw (and_mask 7 x) (rw (or_fields 7 q (x % 128) (omega arith)) (omega arith))

long_last :
    (fuel q x n : ℕ) (b : Buf) (rest : List ℕ)
    → IsBuf b
    → x < 128
    → q * 128 + x ≡ n
    → n < 256
    → pending b ≡ x ∷ rest
    → Reads (read_long_tag (suc fuel) q) b n rest
unfolding read_long_tag
long_last fuel q x n b rest v l e h p =
    let e' : u8 (bit_or (q << 7) (bit_and x 0x7F)) ≡ n =
      add_group q x (omega arith) (omega arith) ∙ omega arith in
    Reads-first _ b x n rest rest v p λ c t.
      (c, rw (top_bit_clear x l) (ap (λ (t : ℕ). ok t c) e'), Consumes-refl c rest t.valid t.left)

long_more :
    (fuel x n : ℕ) (b : Buf) (more rest : List ℕ)
    → IsBuf b
    → x < 128
    → pending b ≡ (x + 128) ∷ more
    → ((c : Buf) → Consumes b more c → Reads (read_long_tag fuel x) c n rest)
    → Reads (read_long_tag (suc fuel) 0) b n rest
unfolding read_long_tag
long_more fuel x n b more rest v l p go =
    let e : u8 (bit_or (0 << 7) (bit_and (x + 128) 0x7F)) ≡ x =
      add_group 0 (x + 128) (omega arith) (omega arith) ∙ omega arith in
    Reads-first _ b (x + 128) n more rest v p λ c t. rw (top_bit_set x l) (rw e (go c t))

module _ (c : ℕ) (k : Bool) (n : ℕ) (hc : c < 4) where
  class_field : (m : ℕ) → m < 32 → bit_and ((tag_first c k + m) >>> 6) 0x03 ≡ c
  class_field m h = ground (arith, and_mask 2 (tag_first c k + m >>> 6))

  constructed_field :
      (m : ℕ) → m < 32 → bit_and ((tag_first c k + m) >>> 5) 0x01 ≡ (if k then 1 else 0)
  constructed_field m h = ground (arith, and_mask 1 (tag_first c k + m >>> 5))

  number_field : (m : ℕ) → m < 32 → bit_and (tag_first c k + m) 0x1F ≡ m
  number_field m h = ground (arith, and_mask 5 (tag_first c k + m))

  number_short :
      (b : Buf) → n < 31 → ber_read_tag_number (tag_first c k + n) b ≡ ok (tag_with c k n) b
  unfolding ber_read_tag_number
  number_short b h = ground (
    arith,
    class_field n (omega arith),
    constructed_field n (omega arith),
    number_field n (omega arith),
  )

  number_long :
      (b : Buf) (rest : List ℕ)
      → Reads (read_long_tag (buf_unread b) 0) b n rest
      → Reads (ber_read_tag_number (tag_first c k + 31)) b (tag_with c k n) rest
  unfolding ber_read_tag_number
  number_long b rest (d, e, q) = (
    d,
    ground (
      arith,
      e,
      class_field 31 (omega arith),
      constructed_field 31 (omega arith),
      number_field 31 (omega arith),
    ),
    q,
  )

  -- The long form, with the fuel that the octets left give.
  long_one :
      (b : Buf) (rest : List ℕ)
      → IsBuf b
      → n < 128
      → pending b ≡ n ∷ rest
      → Reads (read_long_tag (buf_unread b) 0) b n rest
  long_one b rest v l p =
      rw (buf_unread-pending b v, p)
        (long_last (length rest) 0 n n b rest v l (omega arith) (omega arith) p)

  long_two :
      (b : Buf) (rest : List ℕ)
      → IsBuf b
      → n < 256
      → pending b ≡ (n / 128 + 128) ∷ (n % 128) ∷ rest
      → Reads (read_long_tag (buf_unread b) 0) b n rest
  long_two b rest v l p =
      rw (buf_unread-pending b v, p)
        (long_more (suc (length rest)) (n / 128) n b (n % 128 ∷ rest) rest v (omega arith) p λ c t.
          long_last (length rest) (n / 128) (n % 128) n c rest t.valid (omega arith) (omega arith) l
            t.left)

  -- A tag in any of its three forms is read back, and nothing behind it.
  pub read_tag_lem :
      (rest : List ℕ) (b : Buf)
      → IsBuf b
      → n < 256
      → pending b ≡ tag_octets c k n ++ rest
      → Reads ber_read_tag b (tag_with c k n) rest
  unfolding ber_read_tag
  read_tag_lem rest b v l p = elim (dec_lt n 31) [
    | yes h ↦
        Reads-first ber_read_tag_number b (tag_first c k + n) _ rest rest v
          (p ∙ ap (λ t. t ++ rest) (octets_short c k n hc h))
          λ d t. (d, number_short d h, Consumes-refl d rest t.valid t.left)
    | no h ↦ elim (dec_lt n 128) [
      | yes h' ↦
          Reads-first ber_read_tag_number b (tag_first c k + 31) _ (n ∷ rest) rest v
            (p ∙ ap (λ t. t ++ rest) (octets_one c k n hc (omega arith) h'))
            λ d t. number_long d rest (long_one d rest t.valid h' t.left)
      | no h' ↦
          Reads-first ber_read_tag_number b (tag_first c k + 31) _
            ((n / 128 + 128) ∷ (n % 128) ∷ rest) rest v
            (p ∙ ap (λ t. t ++ rest) (octets_two c k n hc (omega arith)))
            λ d t. number_long d rest (long_two d rest t.valid l t.left)
    ]
  ]

-- A tag of any class, primitive or constructed, with any number that fits a uint8_t, written into a
-- buffer with nothing left to read, is what `osp_ber_read_tag` returns next.
pub read_tag-write_tag :
    (c : ℕ) (k : Bool) (n : ℕ) (b : Buf)
    → IsBuf b
    → c < 4
    → n < 256
    → pending b ≡ []
    → b.wr + length (tag_octets c k n) ≤ b.size
    → (b' : Buf) × ((ber_write_tag c k n >> ber_read_tag) b ≡ ok (tag_with c k n) b')
      × (content b' ≡ content b ++ tag_octets c k n)
      × (pending b' ≡ [])
read_tag-write_tag c k n b v hc hn none_left room =
    Writes-Reads (ber_write_tag c k n) ber_read_tag b (tag_octets c k n) (tag_with c k n) v
      none_left (write_tag_fits c k n hc b v hn room) λ d w p. read_tag_lem c k n hc [] d w hn p
