-- ===== src/Codec/Axdr/RoundTrip.antt =====
-- The fixed-width values of A-XDR are read back as they were written.
use openspodes.Prelude.{
  ℕ, ◌+◌, ◌*◌, ◌/◌, ◌%◌, ◌^◌, ◌≤◌, ◌<◌, ◌≡◌, refl, ap, ◌∙◌, Bool, true, false, List, [], ◌∷◌,
  length, subst, get_or, arith, ◌==◌, not, if◌then◌else◌, u8, u16, u32, ◌<<◌, ◌>>>◌, bit_and,
  bit_or,
}
use openspodes.Prelude.Bits.{or_fields, and_mask}
use openspodes.Err.{ok, ◌>>◌}
use openspodes.Buf.{Buf, IsBuf, put, octet}
use openspodes.Buf.View.{
  Reads, Writes, pending, put_lem, next_lem, octet-pending, buf_unread-pending, buf_free-sub,
}
use openspodes.Buf.Compose.{Writes-then, Writes-Reads, skip_over}
use openspodes.Codec.Ber.Uint.{put_four}
use openspodes.Codec.Axdr.{
  axdr_read_u8, axdr_read_u16, axdr_read_u32, axdr_read_bool, axdr_write_u8, axdr_write_u16,
  axdr_write_u32, axdr_write_bool,
}

-- Four octets joined by shifts and `|` are the number they stand for.
join_four :
    (a b c d : ℕ)
    → a < 256
    → b < 256
    → c < 256
    → d < 256
    → bit_or (bit_or (bit_or (u32 (a << 24)) (u32 (b << 16))) (u32 (c << 8))) d
      ≡ ((a * 256 + b) * 256 + c) * 256 + d
join_four a b c d ha hb hc hd =
    let e : u32 (a << 24) ≡ a * 2 ^ 24 = omega arith in
    let f : u32 (b << 16) ≡ b * 2 ^ 16 = omega arith in
    let g : u32 (c << 8) ≡ c * 2 ^ 8 = omega arith in
    let e' : a * 2 ^ 24 + b * 2 ^ 16 ≡ (a * 256 + b) * 2 ^ 16 = omega arith in
    let f' : (a * 256 + b) * 2 ^ 16 + c * 2 ^ 8 ≡ ((a * 256 + b) * 256 + c) * 2 ^ 8 = omega arith in
    rw
      (
        e,
        f,
        g,
        or_fields 24 a (b * 2 ^ 16) (omega arith),
        e',
        or_fields 16 (a * 256 + b) (c * 2 ^ 8) (omega arith),
        f',
      )
      (or_fields 8 ((a * 256 + b) * 256 + c) d hd)

join_two : (a b : ℕ) → a < 256 → b < 256 → u16 (bit_or (a << 8) b) ≡ a * 256 + b
join_two a b ha hb = rw (or_fields 8 a b hb) (omega arith)

pub octet_at :
    (b : Buf)
    → IsBuf b
    → (i : ℕ) (l : List ℕ) → pending b ≡ l
    → i < length l
    → octet b i ≡ get_or l i 0
octet_at b v i l p h = octet-pending b v i (omega (arith, ap length p)) ∙ ap (λ t. get_or t i 0) p

module _ (b : Buf) (v : IsBuf b) where
  pub read_u8_lem : (x : ℕ) (rest : List ℕ) → pending b ≡ x ∷ rest → Reads axdr_read_u8 b x rest
  unfolding axdr_read_u8
  read_u8_lem x rest p =
      let (c, e, q) = skip_over (x ∷ []) rest b v p in
      (
        c,
        ground (arith, e, octet_at b v 0 _ p (omega arith), buf_unread-pending b v, ap length p),
        q,
      )

  pub read_u16_lem :
      (x y : ℕ) (rest : List ℕ)
      → x < 256
      → y < 256
      → pending b ≡ x ∷ y ∷ rest
      → Reads axdr_read_u16 b (x * 256 + y) rest
  unfolding axdr_read_u16
  read_u16_lem x y rest hx hy p =
      let (c, e, q) = skip_over (x ∷ y ∷ []) rest b v p in
      let o : octet b 0 ≡ x = octet_at b v 0 _ p (omega arith) in
      let o' : octet b 1 ≡ y = octet_at b v 1 _ p (omega arith) in
      (
        c,
        rw (o, o', join_two x y hx hy) (ground (arith, e, buf_unread-pending b v, ap length p)),
        q,
      )

  pub read_u32_lem :
      (w x y z : ℕ) (rest : List ℕ)
      → w < 256
      → x < 256
      → y < 256
      → z < 256
      → pending b ≡ w ∷ x ∷ y ∷ z ∷ rest
      → Reads axdr_read_u32 b (((w * 256 + x) * 256 + y) * 256 + z) rest
  unfolding axdr_read_u32
  read_u32_lem w x y z rest hw hx hy hz p =
      let (c, e, q) = skip_over (w ∷ x ∷ y ∷ z ∷ []) rest b v p in
      let o : octet b 0 ≡ w = octet_at b v 0 _ p (omega arith) in
      let o' : octet b 1 ≡ x = octet_at b v 1 _ p (omega arith) in
      let o'' : octet b 2 ≡ y = octet_at b v 2 _ p (omega arith) in
      let o''' : octet b 3 ≡ z = octet_at b v 3 _ p (omega arith) in
      (
        c,
        rw (o, o', o'', o''', join_four w x y z hw hx hy hz)
            (ground (arith, e, buf_unread-pending b v, ap length p)),
        q,
      )

  pub read_bool_lem :
      (x : ℕ) (rest : List ℕ) → pending b ≡ x ∷ rest → Reads axdr_read_bool b (not (x == 0)) rest
  unfolding axdr_read_bool
  read_bool_lem x rest p =
      let (c, e, q) = next_lem b v x rest p in
      (c, ground (arith, e, buf_unread-pending b v, ap length p), q)

  pub write_u8_lem : (x : ℕ) → b.wr + 1 ≤ b.size → Writes (axdr_write_u8 x) b (x ∷ [])
  unfolding axdr_write_u8
  write_u8_lem x r =
      let (c, e, a) = put_lem x b v (omega arith) in (c, ground (arith, e, buf_free-sub b v), a)

  pub write_bool_lem :
      (k : Bool) → b.wr + 1 ≤ b.size → Writes (axdr_write_bool k) b ((if k then 1 else 0) ∷ [])
  unfolding axdr_write_bool
  write_bool_lem k r =
      let (c, e, a) = put_lem (if k then 1 else 0) b v (omega arith) in
      (c, ground (arith, e, buf_free-sub b v), a)

  pub write_u16_lem :
      (x : ℕ)
      → x < 2 ^ 16
      → b.wr + 2 ≤ b.size
      → Writes (axdr_write_u16 x) b ((x / 256) ∷ (x % 256) ∷ [])
  unfolding axdr_write_u16
  write_u16_lem x h r =
      let f : u8 (bit_and x 0xFF) ≡ x % 256 = omega (arith, and_mask 8 x) in
      let g : u8 (x >>> 8) ≡ x / 256 = omega arith in
      let (c, e, a) =
        Writes-then (put (x / 256)) (put (x % 256)) b ((x / 256) ∷ []) ((x % 256) ∷ [])
          (put_lem _ b v (omega arith)) (λ c a. put_lem _ c a.valid (omega (arith, a.moved))) in
      (c, rw (f, g) (ground (arith, e, buf_free-sub b v)), a)

  pub write_u32_lem :
      (x : ℕ)
      → x < 2 ^ 32
      → b.wr + 4 ≤ b.size
      → Writes
          (axdr_write_u32 x)
          b
          ((x / 2 ^ 24) ∷ (x / 2 ^ 16 % 256) ∷ (x / 256 % 256) ∷ (x % 256) ∷ [])
  unfolding axdr_write_u32
  write_u32_lem x h r =
      let f : u8 (bit_and x 0xFF) ≡ x % 256 = omega (arith, and_mask 8 x) in
      let g : u8 (x >>> 24) ≡ x / 2 ^ 24 = omega arith in
      let (c, e, a) = put_four (x / 2 ^ 24) (x / 2 ^ 16 % 256) (x / 256 % 256) (x % 256) b v r in
      (c, rw (f, g) (ground (arith, e, buf_free-sub b v)), a)

-- Each fixed-width value written into a buffer with nothing left to read and room for it is what
-- its reader returns next: every uint8_t, uint16_t, uint32_t and both booleans.
pub axdr_round_trip :
    (b : Buf)
    → IsBuf b
    → pending b ≡ []
    → b.wr + 4 ≤ b.size
    → ((x : ℕ)
        → x < 2 ^ 8
        → (c : Buf) × ((axdr_write_u8 x >> axdr_read_u8) b ≡ ok x c) × (pending c ≡ []))
      × ((x : ℕ)
          → x < 2 ^ 16
          → (c : Buf) × ((axdr_write_u16 x >> axdr_read_u16) b ≡ ok x c) × (pending c ≡ []))
      × ((x : ℕ)
          → x < 2 ^ 32
          → (c : Buf) × ((axdr_write_u32 x >> axdr_read_u32) b ≡ ok x c) × (pending c ≡ []))
      × ((k : Bool)
          → (c : Buf) × ((axdr_write_bool k >> axdr_read_bool) b ≡ ok k c) × (pending c ≡ []))
axdr_round_trip b v none_left room = (
  λ x h.
      let (c, e, _, q) =
        Writes-Reads (axdr_write_u8 x) axdr_read_u8 b _ x v none_left
          (write_u8_lem b v x (omega arith)) (λ c w p. read_u8_lem c w x [] p) in
      (c, e, q),
  λ x h.
      let n : x / 256 * 256 + x % 256 ≡ x = omega arith in
      let (c, e, _, q) =
        Writes-Reads (axdr_write_u16 x) axdr_read_u16 b _ x v none_left
          (write_u16_lem b v x h (omega arith))
          (λ c w p.
            subst (λ t. Reads axdr_read_u16 c t []) n
              (read_u16_lem c w (x / 256) (x % 256) [] (omega arith) (omega arith) p)) in
      (c, e, q),
  λ x h.
      let n : ((x / 2 ^ 24 * 256 + x / 2 ^ 16 % 256) * 256 + x / 256 % 256) * 256 + x % 256 ≡ x =
        omega arith in
      let (c, e, _, q) =
        Writes-Reads (axdr_write_u32 x) axdr_read_u32 b _ x v none_left
          (write_u32_lem b v x h (omega arith))
          (λ c w p.
            subst (λ t. Reads axdr_read_u32 c t []) n
              (read_u32_lem c w (x / 2 ^ 24) (x / 2 ^ 16 % 256) (x / 256 % 256) (x % 256) []
                (omega arith) (omega arith) (omega arith) (omega arith) p)) in
      (c, e, q),
  λ k.
      let (c, e, _, q) =
        Writes-Reads (axdr_write_bool k) axdr_read_bool b _ k v none_left
          (write_bool_lem b v k (omega arith))
          (λ c w p.
            subst (λ t. Reads axdr_read_bool c t []) (bool_octet k)
              (read_bool_lem c w (if k then 1 else 0) [] p)) in
      (c, e, q),
)
  where
    bool_octet : (k : Bool) → not ((if k then 1 else 0) == 0) ≡ k
    bool_octet true = refl
    bool_octet false = refl
