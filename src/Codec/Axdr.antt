-- ===== src/Codec/Axdr.antt =====
-- src/codec/codec.c, "AXDR read" and "AXDR write": fixed-width values, booleans, octet strings. An
-- out-parameter that the reader lets be null receives the value here.
pub mod RoundTrip
pub mod Strings
use openspodes.Prelude.{
  ℕ, ◌+◌, ◌*◌, Bool, true, false, List, length, ltb, ◌==◌, not, if◌then◌else◌, u8, u16, u32, ◌<<◌,
  ◌>>>◌, bit_and, bit_or,
}
use openspodes.Err.{Call, ok, ◌>>=◌, ◌>>◌, pure, fail_if, invalid}
use openspodes.Buf.{Buf, buf_unread, buf_free, next, put, octet, skip}
use openspodes.Codec.Len.{dlms_read_len, dlms_write_len}
use openspodes.Codec.Ber.{read_string_body, write_string_body}

abbrev pub tag_octetstring : ℕ
tag_octetstring = 9

unfoldable pub axdr_read_tag : Call Buf ℕ
axdr_read_tag b = (do fail_if (ltb (buf_unread b) 1) invalid; next) b

unfoldable pub axdr_read_u8 : Call Buf ℕ
axdr_read_u8 b = (do fail_if (ltb (buf_unread b) 1) invalid; skip 1; pure (octet b 0)) b

unfoldable pub axdr_read_u16 : Call Buf ℕ
axdr_read_u16 b =
    (do
      fail_if (ltb (buf_unread b) 2) invalid
      skip 2
      pure (u16 (bit_or (octet b 0 << 8) (octet b 1))))
      b

unfoldable pub axdr_read_u32 : Call Buf ℕ
axdr_read_u32 b =
    (do
      fail_if (ltb (buf_unread b) 4) invalid
      skip 4
      pure (
          bit_or
            (bit_or (bit_or (u32 (octet b 0 << 24)) (u32 (octet b 1 << 16))) (u32 (octet b 2 << 8)))
            (octet b 3)))
      b

unfoldable pub axdr_read_bool : Call Buf Bool
axdr_read_bool b = (do fail_if (ltb (buf_unread b) 1) invalid; x ← next; pure (not (x == 0))) b

unfoldable pub axdr_read_octet_string : ℕ → Call Buf (List ℕ)
axdr_read_octet_string max_len = do
  tag ← axdr_read_tag
  fail_if (not (tag == tag_octetstring)) invalid
  len ← dlms_read_len
  read_string_body max_len len

unfoldable pub axdr_write_tag : ℕ → Call Buf (Unit {0})
axdr_write_tag tag b = (do fail_if (ltb (buf_free b) 1) invalid; put tag) b

unfoldable pub axdr_write_u8 : ℕ → Call Buf (Unit {0})
axdr_write_u8 val b = (do fail_if (ltb (buf_free b) 1) invalid; put val) b

unfoldable pub axdr_write_u16 : ℕ → Call Buf (Unit {0})
axdr_write_u16 val b =
    (do fail_if (ltb (buf_free b) 2) invalid; put (u8 (val >>> 8)); put (u8 (bit_and val 0xFF))) b

unfoldable pub axdr_write_u32 : ℕ → Call Buf (Unit {0})
axdr_write_u32 val b =
    (do
      fail_if (ltb (buf_free b) 4) invalid
      put (u8 (val >>> 24))
      put (u8 (val >>> 16))
      put (u8 (val >>> 8))
      put (u8 (bit_and val 0xFF)))
      b

unfoldable pub axdr_write_bool : Bool → Call Buf (Unit {0})
axdr_write_bool val b = (do fail_if (ltb (buf_free b) 1) invalid; put (if val then 1 else 0)) b

-- Unlike its reader, the writer has no tag.
unfoldable pub axdr_write_octet_string : List ℕ → Call Buf (Unit {0})
axdr_write_octet_string xs = do dlms_write_len (length xs); write_string_body xs
