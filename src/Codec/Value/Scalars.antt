-- ===== src/Codec/Value/Scalars.antt =====
-- The values that hold no further values: what is written for each is read back.
use openspodes.Prelude.{
  ℕ, ◌+◌, ◌-◌, ◌*◌, ◌/◌, ◌^◌, ◌≤◌, ◌<◌, ◌≡◌, ap, ◌∙◌, List, [], ◌∷◌, ◌++◌, length, length-append,
  take, arith, u32, sub32,
}
use openspodes.Prelude.Slices.{take-length-append}
use openspodes.Err.{Call, ◌>>=◌}
use openspodes.Buf.{Buf, octet, octets_at, skip, buf_unread}
use openspodes.Buf.View.{pending, buf_unread-pending, octets_at-pending}
use openspodes.Buf.Compose.{Reads-then, skip_over}
use openspodes.Codec.Len.{ber_read_length}
use openspodes.Codec.Len.Format.{len_octets}
use openspodes.Codec.Axdr.RoundTrip.{octet_at}
use openspodes.Codec.Wire.{
  Emits, Takes, Emits-nothing, Takes-pure, Emits-then, Takes-then, Takes-last,
}
use openspodes.Codec.Wire.Parts.{
  Emits-u8, Takes-u8, Emits-u16, Takes-u16, Emits-u32, Takes-u32, Emits-bool, Takes-bool, Emits-len,
  Takes-len, Emits-body, Takes-body, Emits-string,
}
use openspodes.Codec.Serialize.{Bits}
use openspodes.Codec.Serialize.Words.{
  Emits-u64, Takes-u64, Emits-i8, Takes-i8, Emits-i16, Takes-i16, Emits-i32, Takes-i32, Emits-i64,
  Takes-i64,
}
use openspodes.Codec.Serialize.Dates.{
  Emits-date, Takes-date, Emits-time, Takes-time, Emits-datetime, Takes-datetime,
}
use openspodes.Codec.Serialize.Bitstring.{unused_bits, Emits-bits, IsBits}
use openspodes.Codec.Value.{
  Value, null, boolean, bitstring, int32, uint32, octetstring, visiblestring, utf8string, bcd, int8,
  int16, uint8, uint16, int64, uint64, enum_val, float32, float64, datetime, date, time, array,
  structure, other, tag_of, raw_read_length, value_string, value_bits, value_bits_rest, read_scalar,
  write_bits, write_string, write_body,
}
use openspodes.Codec.Value.Format.{bits_octets, string_octets, body_octets, FitsBits, Fits}

Takes-raw_length : (n : ℕ) → n < 2 ^ 32 → Takes raw_read_length (len_octets n) n
unfolding raw_read_length
Takes-raw_length n h b rest v p =
    let (c, e, q) = Takes-len n h b rest v p in (c, ground (arith, e), q)

Takes-string :
    (max_len : ℕ) (read_length : Call Buf ℕ) (xs : List ℕ)
    → length xs ≤ max_len
    → Takes read_length (len_octets (length xs)) (length xs)
    → Takes (value_string max_len read_length) (string_octets xs) xs
unfolding value_string
Takes-string max_len read_length xs h len =
    Takes-then _ (len_octets (length xs)) xs len (Takes-body max_len xs h)

pub Emits-written : (xs : List ℕ) → Emits (write_string xs) (string_octets xs)
unfolding write_string
Emits-written xs = Emits-then (len_octets (length xs)) xs (Emits-len (length xs)) (Emits-body xs)

IsBits-FitsBits : (s : Bits) → FitsBits s → IsBits s
IsBits-FitsBits s f = record { few = omega (arith, f.few); whole = f.whole }

Emits-bit_value : (s : Bits) → FitsBits s → Emits (write_bits s) (bits_octets s)
unfolding write_bits
Emits-bit_value s f =
    let bytes : u32 (s.num_bits + 7) / 8 ≡ length s.bits = omega (arith, f.whole, f.few) in
    let len = len_octets (1 + length s.bits) in
    rw bytes (
      Emits-then len (unused_bits s ∷ s.bits) (Emits-len (1 + length s.bits))
        (Emits-bits s (IsBits-FitsBits s f)))

Takes-rest :
    (s : Bits) → FitsBits s → Takes (value_bits_rest (unused_bits s) (length s.bits)) s.bits s
unfolding value_bits_rest
Takes-rest s f b rest v p =
    let n = length s.bits in
    let room : n ≤ length (pending b) = omega (arith, ap length p, length-append s.bits rest) in
    let got : octets_at b n ≡ s.bits =
      octets_at-pending b v n room ∙ ap (take n) p ∙ take-length-append s.bits rest in
    let count : sub32 (u32 (n * 8)) (unused_bits s) ≡ s.num_bits = omega (arith, f.whole, f.few) in
    let (c, e, q) = skip_over s.bits rest b v p in
    (c, rw (got, count) (ground (arith, e, f.whole, f.few)), q)

Takes-bits :
    (s : Bits) → FitsBits s → Takes (value_bits (1 + length s.bits)) (unused_bits s ∷ s.bits) s
unfolding value_bits
Takes-bits s f b rest v p =
    let n = length s.bits in
    let unused = unused_bits s in
    let room : buf_unread b ≡ 1 + n + length rest =
      omega (arith, buf_unread-pending b v, ap length p, length-append s.bits rest) in
    let o : octet b 0 ≡ unused = octet_at b v 0 _ p (omega arith) in
    let same : 1 + n - 1 ≡ n = omega arith in
    let (c, e, q) =
      Reads-then (skip 1) (λ _. value_bits_rest unused n) b tt s (s.bits ++ rest) rest
        (skip_over (unused ∷ []) (s.bits ++ rest) b v p)
        λ d w. Takes-rest s f d rest w.valid w.left in
    (c, rw (o, same) (ground (arith, room, e)), q)

Takes-bit_value : (s : Bits) → FitsBits s → Takes (raw_read_length >>= value_bits) (bits_octets s) s
Takes-bit_value s f =
    Takes-then value_bits (len_octets (1 + length s.bits)) (unused_bits s ∷ s.bits)
      (Takes-raw_length (1 + length s.bits) (omega (arith, f.whole, f.few))) (Takes-bits s f)

-- A value without further values.
abbrev pub IsScalar : Value → Type 0
IsScalar (array vs) = ⊥
IsScalar (structure vs) = ⊥
IsScalar v = Unit

pub Takes-scalar :
    (v : Value) → Fits v → IsScalar v → Takes (read_scalar (tag_of v)) (body_octets v) v
unfolding read_scalar body_octets Fits
Takes-scalar null f k = Takes-pure null
Takes-scalar (boolean x) f k = Takes-last (body_octets (boolean x)) boolean (Takes-bool x)
Takes-scalar (bitstring s) f k =
    Takes-last (body_octets (bitstring s)) bitstring (Takes-bit_value s f)
Takes-scalar (int32 z) f k = Takes-last (body_octets (int32 z)) int32 (Takes-i32 z f)
Takes-scalar (uint32 n) f k = Takes-last (body_octets (uint32 n)) uint32 (Takes-u32 n f)
Takes-scalar (octetstring xs) f k =
    Takes-last (body_octets (octetstring xs)) octetstring
      (Takes-string 256 ber_read_length xs f (Takes-len (length xs) (omega (arith, f))))
Takes-scalar (visiblestring xs) f k =
    Takes-last (body_octets (visiblestring xs)) visiblestring
      (Takes-string 255 ber_read_length xs f (Takes-len (length xs) (omega (arith, f))))
Takes-scalar (utf8string xs) f k =
    Takes-last (body_octets (utf8string xs)) utf8string
      (Takes-string 255 raw_read_length xs f (Takes-raw_length (length xs) (omega (arith, f))))
Takes-scalar (bcd n) f k = Takes-last (body_octets (bcd n)) bcd (Takes-u8 n)
Takes-scalar (int8 z) f k = Takes-last (body_octets (int8 z)) int8 (Takes-i8 z f)
Takes-scalar (int16 z) f k = Takes-last (body_octets (int16 z)) int16 (Takes-i16 z f)
Takes-scalar (uint8 n) f k = Takes-last (body_octets (uint8 n)) uint8 (Takes-u8 n)
Takes-scalar (uint16 n) f k = Takes-last (body_octets (uint16 n)) uint16 (Takes-u16 n f)
Takes-scalar (int64 z) f k = Takes-last (body_octets (int64 z)) int64 (Takes-i64 z f)
Takes-scalar (uint64 n) f k = Takes-last (body_octets (uint64 n)) uint64 (Takes-u64 n f)
Takes-scalar (enum_val n) f k = Takes-last (body_octets (enum_val n)) enum_val (Takes-u8 n)
Takes-scalar (float32 n) f k = Takes-last (body_octets (float32 n)) float32 (Takes-u32 n f)
Takes-scalar (float64 n) f k = Takes-last (body_octets (float64 n)) float64 (Takes-u64 n f)
Takes-scalar (datetime dt) f k =
    Takes-last (body_octets (datetime dt)) datetime (Takes-datetime dt f)
Takes-scalar (date d) f k = Takes-last (body_octets (date d)) date (Takes-date d f)
Takes-scalar (time t) f k = Takes-last (body_octets (time t)) time (Takes-time t)
Takes-scalar (array vs) f k = absurd k
Takes-scalar (structure vs) f k = absurd k
Takes-scalar (other tag) f k = absurd f

pub Emits-scalar : (v : Value) → Fits v → IsScalar v → Emits (write_body v) (body_octets v)
unfolding write_body body_octets Fits
Emits-scalar null f k = Emits-nothing
Emits-scalar (boolean x) f k = Emits-bool x
Emits-scalar (bitstring s) f k = Emits-bit_value s f
Emits-scalar (int32 z) f k = Emits-i32 z f
Emits-scalar (uint32 n) f k = Emits-u32 n f
Emits-scalar (octetstring xs) f k = Emits-string xs
Emits-scalar (visiblestring xs) f k = Emits-written xs
Emits-scalar (utf8string xs) f k = Emits-written xs
Emits-scalar (bcd n) f k = Emits-u8 n
Emits-scalar (int8 z) f k = Emits-i8 z f
Emits-scalar (int16 z) f k = Emits-i16 z f
Emits-scalar (uint8 n) f k = Emits-u8 n
Emits-scalar (uint16 n) f k = Emits-u16 n f
Emits-scalar (int64 z) f k = Emits-i64 z f
Emits-scalar (uint64 n) f k = Emits-u64 n f
Emits-scalar (enum_val n) f k = Emits-u8 n
Emits-scalar (float32 n) f k = Emits-u32 n f
Emits-scalar (float64 n) f k = Emits-u64 n f
Emits-scalar (datetime dt) f k = Emits-datetime dt f
Emits-scalar (date d) f k = Emits-date d f
Emits-scalar (time t) f k = Emits-time t
Emits-scalar (array vs) f k = absurd k
Emits-scalar (structure vs) f k = absurd k
Emits-scalar (other tag) f k = absurd f
