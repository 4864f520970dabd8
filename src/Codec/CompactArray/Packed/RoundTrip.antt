-- ===== src/Codec/CompactArray/Packed/RoundTrip.antt =====
-- A value that is packed is read back and skipped by its tag.
use openspodes.Prelude.{
  ℕ, ◌+◌, ◌/◌, ◌^◌, ◌≤◌, ◌<◌, ◌≡◌, ap, ◌∙◌, subst, List, [], ◌++◌, length, length-append, take,
  arith, u32,
}
use openspodes.Prelude.Slices.{take-length-append}
use openspodes.Prelude.Ints.{to_word, as_signed, i8_half}
use openspodes.Err.{ok, ◌>>=◌, ◌>>◌}
use openspodes.Buf.{Buf, IsBuf, octets_at}
use openspodes.Buf.View.{pending, content, buf_unread-pending, octets_at-pending}
use openspodes.Buf.Compose.{skip_over}
use openspodes.Codec.Len.{ber_read_length}
use openspodes.Codec.Len.Format.{len_octets}
use openspodes.Codec.Wire.{Emits, Takes, Takes-pure, Takes-then, Takes-last, Emits-Takes}
use openspodes.Codec.Wire.Parts.{Takes-u8, Takes-u16, Takes-u32, Takes-bool, Takes-len}
use openspodes.Codec.Serialize.{Bits}
use openspodes.Codec.Serialize.Words.{Takes-i8, Takes-i16, Takes-i32, Takes-i64, Takes-u64}
use openspodes.Codec.Serialize.Dates.{Takes-date, Takes-time, Takes-datetime}
use openspodes.Codec.Value.{
  Value, tag_of, null, boolean, bitstring, int32, uint32, octetstring, visiblestring, utf8string,
  bcd, int8, int16, uint8, uint16, int64, uint64, enum_val, float32, float64, datetime, date, time,
  array, structure, other,
}
use openspodes.Codec.Value.Format.{Fits, FitsBits, body_octets}
use openspodes.Codec.CompactArray.{pack_value}
use openspodes.Codec.CompactArray.Size.{packed_octets}
use openspodes.Codec.CompactArray.Written.{as_signed-IsSigned, Emits-packed}
use openspodes.Codec.CompactArray.Packed.{
  axdr_type_size, read_packed_string, read_packed_bits, packed_string, read_packed_value, skip_run,
  skip_packed_value,
}

-- A value that holds no further values, in the range of its type.
abbrev pub Packs : Value → Type 0
Packs (array vs) = ⊥
Packs (structure vs) = ⊥
Packs (bcd n) = n < 256
Packs v = Fits v

Packs-Fits : (v : Value) → Packs v → Fits v
unfolding Fits
Packs-Fits (array vs) f = absurd f
Packs-Fits (structure vs) f = absurd f
Packs-Fits (bcd n) f = tt
Packs-Fits null f = f
Packs-Fits (bitstring s) f = f
Packs-Fits (other tag) f = f
Packs-Fits (boolean x) f = f
Packs-Fits (int32 z) f = f
Packs-Fits (uint32 n) f = f
Packs-Fits (int8 z) f = f
Packs-Fits (int16 z) f = f
Packs-Fits (uint8 n) f = f
Packs-Fits (uint16 n) f = f
Packs-Fits (int64 z) f = f
Packs-Fits (uint64 n) f = f
Packs-Fits (enum_val n) f = f
Packs-Fits (float32 n) f = f
Packs-Fits (float64 n) f = f
Packs-Fits (datetime dt) f = f
Packs-Fits (date y) f = f
Packs-Fits (time t) f = f
Packs-Fits (octetstring xs) f = f
Packs-Fits (visiblestring xs) f = f
Packs-Fits (utf8string xs) f = f

Takes-run : (xs : List ℕ) → Takes (skip_run (length xs)) xs tt
unfolding skip_run
Takes-run xs b rest v p =
    let (c, e, q) = skip_over xs rest b v p in
    (c, ground (arith, e, buf_unread-pending b v, ap length p, length-append xs rest), q)

-- What the caller's array receives.
copied_octets :
    (xs rest : List ℕ) (b : Buf) → IsBuf b → pending b ≡ xs ++ rest → octets_at b (length xs) ≡ xs
copied_octets xs rest b v p =
    octets_at-pending b v (length xs) (omega (arith, ap length p, length-append xs rest))
    ∙ ap (take (length xs)) p
    ∙ take-length-append xs rest

Takes-packed_string :
    (max_len : ℕ) (xs : List ℕ)
    → length xs ≤ max_len
    → max_len < 2 ^ 32
    → Takes (packed_string max_len) (len_octets (length xs) ++ xs) xs
unfolding read_packed_string
Takes-packed_string max_len xs h small =
    Takes-then _ (len_octets (length xs)) xs (Takes-len (length xs) (omega arith)) λ b rest v p.
      let (c, e, q) = skip_over xs rest b v p in
      (
        c,
        ground (
          arith,
          e,
          copied_octets xs rest b v p,
          buf_unread-pending b v,
          ap length p,
          length-append xs rest,
        ),
        q,
      )

whole_bytes : (s : Bits) → FitsBits s → u32 (s.num_bits + 7) / 8 ≡ length s.bits
whole_bytes s f = omega (arith, f.whole, f.few)

Takes-packed_bits :
    (s : Bits)
    → FitsBits s
    → Takes (ber_read_length >>= read_packed_bits) (len_octets s.num_bits ++ s.bits) s
unfolding read_packed_bits
Takes-packed_bits s f =
    Takes-then _ (len_octets s.num_bits) s.bits (Takes-len s.num_bits (omega (arith, f.few)))
      λ b rest v p.
        let (c, e, q) = skip_over s.bits rest b v p in
        (
          c,
          rw (whole_bytes s f, copied_octets s.bits rest b v p)
              (ground
                (arith, e, f.few, buf_unread-pending b v, ap length p, length-append s.bits rest)),
          q,
        )

to_word-as_signed : (n : ℕ) → n < 256 → to_word i8_half (as_signed i8_half n) ≡ n
unfolding to_word as_signed
to_word-as_signed n h = ground arith

Takes-packed : (v : Value) → Packs v → Takes (read_packed_value (tag_of v)) (packed_octets v) v
unfolding read_packed_value packed_octets body_octets Fits
Takes-packed null f = Takes-pure null
Takes-packed (bcd n) f =
    let same : to_word i8_half (as_signed i8_half n) ≡ n = to_word-as_signed n f in
    subst (λ (k : ℕ). Takes (read_packed_value 13) (packed_octets (bcd n)) (bcd k)) same
      (Takes-last (packed_octets (bcd n)) (λ z. bcd (to_word i8_half z))
        (Takes-i8 (as_signed i8_half n) (as_signed-IsSigned n)))
Takes-packed (bitstring s) f =
    Takes-last (packed_octets (bitstring s)) bitstring (Takes-packed_bits s f)
Takes-packed (array vs) f = absurd f
Takes-packed (structure vs) f = absurd f
Takes-packed (other tag) f = absurd f
Takes-packed (boolean x) f = Takes-last (packed_octets (boolean x)) boolean (Takes-bool x)
Takes-packed (int32 z) f = Takes-last (packed_octets (int32 z)) int32 (Takes-i32 z f)
Takes-packed (uint32 n) f = Takes-last (packed_octets (uint32 n)) uint32 (Takes-u32 n f)
Takes-packed (int8 z) f = Takes-last (packed_octets (int8 z)) int8 (Takes-i8 z f)
Takes-packed (int16 z) f = Takes-last (packed_octets (int16 z)) int16 (Takes-i16 z f)
Takes-packed (uint8 n) f = Takes-last (packed_octets (uint8 n)) uint8 (Takes-u8 n)
Takes-packed (uint16 n) f = Takes-last (packed_octets (uint16 n)) uint16 (Takes-u16 n f)
Takes-packed (int64 z) f = Takes-last (packed_octets (int64 z)) int64 (Takes-i64 z f)
Takes-packed (uint64 n) f = Takes-last (packed_octets (uint64 n)) uint64 (Takes-u64 n f)
Takes-packed (enum_val n) f = Takes-last (packed_octets (enum_val n)) enum_val (Takes-u8 n)
Takes-packed (float32 n) f = Takes-last (packed_octets (float32 n)) float32 (Takes-u32 n f)
Takes-packed (float64 n) f = Takes-last (packed_octets (float64 n)) float64 (Takes-u64 n f)
Takes-packed (datetime dt) f =
    Takes-last (packed_octets (datetime dt)) datetime (Takes-datetime dt f)
Takes-packed (date y) f = Takes-last (packed_octets (date y)) date (Takes-date y f)
Takes-packed (time t) f = Takes-last (packed_octets (time t)) time (Takes-time t)
Takes-packed (octetstring xs) f =
    Takes-last (packed_octets (octetstring xs)) octetstring
      (Takes-packed_string 256 xs (omega (arith, f)) (omega arith))
Takes-packed (visiblestring xs) f =
    Takes-last (packed_octets (visiblestring xs)) visiblestring
      (Takes-packed_string 255 xs (omega (arith, f)) (omega arith))
Takes-packed (utf8string xs) f =
    Takes-last (packed_octets (utf8string xs)) utf8string
      (Takes-packed_string 256 xs (omega (arith, f)) (omega arith))

Takes-skipped : (v : Value) → Packs v → Takes (skip_packed_value (tag_of v)) (packed_octets v) tt
unfolding skip_packed_value axdr_type_size packed_octets body_octets Fits
Takes-skipped null f = Takes-pure tt
Takes-skipped (bcd n) f = Takes-run (packed_octets (bcd n))
Takes-skipped (bitstring s) f =
    Takes-then _ (len_octets s.num_bits) s.bits (Takes-len s.num_bits (omega (arith, f.few)))
      (rw (whole_bytes s f) (Takes-run s.bits))
Takes-skipped (array vs) f = absurd f
Takes-skipped (structure vs) f = absurd f
Takes-skipped (other tag) f = absurd f
Takes-skipped (boolean x) f = Takes-run (packed_octets (boolean x))
Takes-skipped (int32 z) f = Takes-run (packed_octets (int32 z))
Takes-skipped (uint32 n) f = Takes-run (packed_octets (uint32 n))
Takes-skipped (int8 z) f = Takes-run (packed_octets (int8 z))
Takes-skipped (int16 z) f = Takes-run (packed_octets (int16 z))
Takes-skipped (uint8 n) f = Takes-run (packed_octets (uint8 n))
Takes-skipped (uint16 n) f = Takes-run (packed_octets (uint16 n))
Takes-skipped (int64 z) f = Takes-run (packed_octets (int64 z))
Takes-skipped (uint64 n) f = Takes-run (packed_octets (uint64 n))
Takes-skipped (enum_val n) f = Takes-run (packed_octets (enum_val n))
Takes-skipped (float32 n) f = Takes-run (packed_octets (float32 n))
Takes-skipped (float64 n) f = Takes-run (packed_octets (float64 n))
Takes-skipped (datetime dt) f = Takes-run (packed_octets (datetime dt))
Takes-skipped (date y) f = Takes-run (packed_octets (date y))
Takes-skipped (time t) f = Takes-run (packed_octets (time t))
Takes-skipped (octetstring xs) f =
    Takes-then _ (len_octets (length xs)) xs (Takes-len (length xs) (omega (arith, f)))
      (Takes-run xs)
Takes-skipped (visiblestring xs) f =
    Takes-then _ (len_octets (length xs)) xs (Takes-len (length xs) (omega (arith, f)))
      (Takes-run xs)
Takes-skipped (utf8string xs) f =
    Takes-then _ (len_octets (length xs)) xs (Takes-len (length xs) (omega (arith, f)))
      (Takes-run xs)

-- A value in range that holds no further values: what `pack_value` writes of it, into a buffer with
-- nothing left to read and room for it, `read_packed_value` reads back by the value's tag, and
-- `skip_packed_value` skips as a whole.
pub packed_read-pack :
    (v : Value) (b : Buf)
    → Packs v
    → IsBuf b
    → pending b ≡ []
    → b.wr + length (packed_octets v) ≤ b.size
    → ((c : Buf) × ((pack_value v >> read_packed_value (tag_of v)) b ≡ ok v c)
        × (content c ≡ content b ++ packed_octets v)
        × (pending c ≡ []))
      × ((c : Buf) × ((pack_value v >> skip_packed_value (tag_of v)) b ≡ ok tt c)
          × (content c ≡ content b ++ packed_octets v)
          × (pending c ≡ []))
packed_read-pack v b f vb none_left room =
    let written : Emits (pack_value v) (packed_octets v) = Emits-packed v (Packs-Fits v f) in
    (
      Emits-Takes (packed_octets v) written (Takes-packed v f) b vb none_left room,
      Emits-Takes (packed_octets v) written (Takes-skipped v f) b vb none_left room,
    )
