-- ===== src/Codec/TypeDescription.antt =====
-- src/codec/serialize.c, "COMPACT-ARRAY": the description of the type of a value, which stands in
-- front of the contents of a compact array, and the reader that skips it.
pub mod RoundTrip
use openspodes.Prelude.{ℕ, zero, suc, ltb, ◌==◌, if◌then◌else◌}
use openspodes.Err.{Call, invalid, ◌>>=◌, ◌>>◌, pure, fail, fail_if}
use openspodes.Buf.{Buf, buf_unread, skip}
use openspodes.Codec.Len.{ber_read_length, ber_write_length}
use openspodes.Codec.Axdr.{axdr_read_u8, axdr_write_u8, axdr_write_u16}
use openspodes.Codec.Serialize.{tag_array, tag_structure}
use openspodes.Codec.Value.{Value, Values, array, structure, no_items, item, tag_of, count_of}

-- OSP_MAX_TYPE_DEPTH
abbrev pub max_type_depth : ℕ
max_type_depth = 16

-- The number of elements of an array.
unfoldable pub skip_two : Call Buf (Unit {0})
skip_two b = (do fail_if (ltb (buf_unread b) 2) invalid; skip 2) b

-- The loop over the fields of a structure.
unfoldable pub skip_fields : Call Buf (Unit {0}) → ℕ → Call Buf (Unit {0})
skip_fields skip_field zero = pure tt
skip_fields skip_field (suc n) = skip_field >> skip_fields skip_field n

-- `left` is OSP_MAX_TYPE_DEPTH less the depth.
unfoldable pub skip_type_description_depth : ℕ → Call Buf (Unit {0})
skip_type_description_depth zero = fail invalid
skip_type_description_depth (suc left) = axdr_read_u8 >>= λ tag.
    if tag == tag_structure
    then (ber_read_length >>= λ n. skip_fields (skip_type_description_depth left) n)
    else if tag == tag_array
    then (skip_two >> skip_type_description_depth left)
    else pure tt

unfoldable pub skip_type_description : Call Buf (Unit {0})
skip_type_description = skip_type_description_depth max_type_depth

unfoldable mutual
  -- Behind the tag. The type of an array is that of its first element.
  pub write_type : Value → Call Buf (Unit {0})
  write_type (structure vs) = ber_write_length (count_of vs) >> write_fields vs
  write_type (array no_items) = fail invalid
  write_type (array (item v vs)) =
      axdr_write_u16 (suc (count_of vs)) >> (axdr_write_u8 (tag_of v) >> write_type v)
  write_type _ = pure tt

  pub write_fields : Values → Call Buf (Unit {0})
  write_fields no_items = pure tt
  write_fields (item v vs) = (axdr_write_u8 (tag_of v) >> write_type v) >> write_fields vs

unfoldable pub write_type_description : Value → Call Buf (Unit {0})
write_type_description v = axdr_write_u8 (tag_of v) >> write_type v
