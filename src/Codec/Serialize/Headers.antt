-- ===== src/Codec/Serialize/Headers.antt =====
-- The heads of structures and arrays.
use openspodes.Prelude.{ℕ, ◌<◌, [], ◌∷◌, arith}
use openspodes.Codec.Len.Format.{len_octets}
use openspodes.Codec.Wire.{Takes, RoundTrip, Emits-then, Takes-then, Emits-Takes}
use openspodes.Codec.Wire.Parts.{Emits-tag, Takes-tag, Emits-len, Takes-len}
use openspodes.Codec.Serialize.{
  tag_array, tag_structure, struct_begin, array_begin, read_count, struct_begin_read,
  array_begin_read,
}

Takes-count : (n : ℕ) → n < 256 → Takes read_count (len_octets n) n
unfolding read_count
Takes-count n h b rest v p =
    let (c, e, q) = Takes-len n (omega arith) b rest v p in (c, ground (arith, e), q)

-- The head of a structure or of an array, written into a buffer with nothing left to read and room
-- for it, gives back its count, for every count of a uint8_t.
pub begin-RoundTrip :
    (n : ℕ)
    → n < 256
    → RoundTrip (struct_begin n) struct_begin_read (tag_structure ∷ len_octets n) n
      × RoundTrip (array_begin n) array_begin_read (tag_array ∷ len_octets n) n
unfolding struct_begin array_begin struct_begin_read array_begin_read
begin-RoundTrip n h = (
  Emits-Takes (2 ∷ len_octets n) (Emits-then (2 ∷ []) (len_octets n) (Emits-tag 2) (Emits-len n))
      (Takes-then _ (2 ∷ []) (len_octets n) (Takes-tag 2) (Takes-count n h)),
  Emits-Takes (1 ∷ len_octets n) (Emits-then (1 ∷ []) (len_octets n) (Emits-tag 1) (Emits-len n))
      (Takes-then _ (1 ∷ []) (len_octets n) (Takes-tag 1) (Takes-count n h)),
)
