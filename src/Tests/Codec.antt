-- ===== src/Tests/Codec.antt =====
-- src/codec/codec.c on concrete buffers.
use openspodes.Prelude.{ℕ, ◌<◌, ◌^◌, ◌≡◌, refl, Bool, true, List, [], ◌∷◌, ◌++◌, arith}
use openspodes.Err.{◌>>◌, ok, err, invalid}
use openspodes.Buf.{Buf, IsBuf, buf_init}
use openspodes.Buf.View.{content, pending}
use openspodes.Codec.Len.{dlms_write_len, dlms_read_len, min_octets_u32}
use openspodes.Codec.Len.Format.{len_octets, big_endian}
use openspodes.Codec.Len.RoundTrip.{read_len-write_len}
use openspodes.Codec.Len.Safety.{Agrees, parse_len, read_len-refines}
use openspodes.Codec.Ber.{ber_write_tag, ber_read_tag, ber_write_uint, ber_read_uint}
use openspodes.Codec.Ber.Tag.{tag_octets}
use openspodes.Codec.Ber.TagRead.{read_tag-write_tag, tag_with}
use openspodes.Codec.Ber.Uint.{read_uint-write_uint, uint_octets}
use openspodes.Codec.Axdr.{
  axdr_write_u8, axdr_read_u8, axdr_write_u16, axdr_read_u16, axdr_write_u32, axdr_read_u32,
  axdr_write_bool, axdr_read_bool, axdr_write_octet_string, axdr_read_octet_string,
}
use openspodes.Codec.Axdr.RoundTrip.{axdr_round_trip}
use openspodes.Codec.Axdr.Strings.{axdr_string_untagged}

abbrev blank : Buf
blank = buf_init (0 ∷ 0 ∷ 0 ∷ 0 ∷ 0 ∷ 0 ∷ 0 ∷ 0 ∷ 0 ∷ 0 ∷ []) 10

blank-IsBuf : IsBuf blank
unfolding buf_init
blank-IsBuf = record {
  ordered = omega arith;
  within = omega arith;
  backed = refl;
  narrow = omega arith;
}

read_len-write_len_example :
    (b' : Buf) × ((dlms_write_len 300 >> dlms_read_len) blank ≡ ok 300 b')
    × (content b' ≡ content blank ++ len_octets 300)
    × (pending b' ≡ [])
unfolding len_octets big_endian min_octets_u32 buf_init
read_len-write_len_example =
    read_len-write_len 300 blank blank-IsBuf (omega arith) refl (omega arith)

-- 83 00 01: a length of three octets that end too early.
abbrev short_length : Buf
short_length = record { buf = 0x83 ∷ 0x00 ∷ 0x01 ∷ []; size = 3; rd = 0; wr = 3 }

short_length-IsBuf : IsBuf short_length
short_length-IsBuf = record {
  ordered = omega arith;
  within = omega arith;
  backed = refl;
  narrow = omega arith;
}

read_len-refines_example : Agrees dlms_read_len short_length (parse_len (pending short_length))
read_len-refines_example =
    read_len-refines short_length short_length-IsBuf (omega arith, (omega arith, (omega arith, tt)))

read_tag-write_tag_example :
    (b' : Buf) × ((ber_write_tag 2 true 200 >> ber_read_tag) blank ≡ ok (tag_with 2 true 200) b')
    × (content b' ≡ content blank ++ tag_octets 2 true 200)
    × (pending b' ≡ [])
unfolding tag_octets buf_init
read_tag-write_tag_example =
    read_tag-write_tag 2 true 200 blank blank-IsBuf (omega arith) (omega arith) refl (omega arith)

read_uint-write_uint_example :
    (b' : Buf) × ((ber_write_uint 70000 >> ber_read_uint) blank ≡ ok 70000 b')
    × (content b' ≡ content blank ++ uint_octets 70000)
    × (pending b' ≡ [])
unfolding buf_init
read_uint-write_uint_example =
    read_uint-write_uint 70000 blank blank-IsBuf (omega arith) (omega arith) refl

abbrev letters : List ℕ
letters = 0x61 ∷ 0x62 ∷ 0x63 ∷ []

axdr_round_trip_example :
    ((x : ℕ)
      → x < 2 ^ 8
      → (c : Buf) × ((axdr_write_u8 x >> axdr_read_u8) blank ≡ ok x c) × (pending c ≡ []))
    × ((x : ℕ)
        → x < 2 ^ 16
        → (c : Buf) × ((axdr_write_u16 x >> axdr_read_u16) blank ≡ ok x c) × (pending c ≡ []))
    × ((x : ℕ)
        → x < 2 ^ 32
        → (c : Buf) × ((axdr_write_u32 x >> axdr_read_u32) blank ≡ ok x c) × (pending c ≡ []))
    × ((k : Bool)
        → (c : Buf) × ((axdr_write_bool k >> axdr_read_bool) blank ≡ ok k c) × (pending c ≡ []))
unfolding buf_init
axdr_round_trip_example = axdr_round_trip blank blank-IsBuf refl (omega arith)

axdr_string_untagged_example :
    (c : Buf) × ((axdr_write_octet_string letters >> axdr_read_octet_string 5) blank
      ≡ err invalid c)
unfolding len_octets buf_init
axdr_string_untagged_example =
    axdr_string_untagged 5 letters blank blank-IsBuf (omega arith) refl (omega arith)
