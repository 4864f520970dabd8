-- ===== src/Codec/Len.antt =====
-- src/codec/codec.c, "Shared length codec": DLMS definite lengths, one octet below 0x80 and
-- 0x80 | n followed by n big-endian octets above, and the encoding that an APDU's first tag selects.
pub mod Format
pub mod RoundTrip
pub mod Safety
use openspodes.Prelude.{
  ℕ, zero, suc, ◌+◌, ◌*◌, Bool, true, false, ◌||◌, ltb, leb, ◌==◌, if◌then◌else◌, u8, u32, ◌<<◌,
  ◌>>>◌, bit_and, bit_or,
}
use openspodes.Err.{
  Call, ok, err, ◌>>=◌, ◌>>◌, pure, fail, fail_if, nomem, invalid, unsupported, code,
}
use openspodes.Buf.{Buf, buf_unread, buf_free, next, put}

unfoldable pub min_octets_u32 : ℕ → ℕ
min_octets_u32 v =
    if leb v 0xFF then 1 else if leb v 0xFFFF then 2 else if leb v 0xFFFFFF then 3 else 4

-- `for (int i = n - 1; i >= 0; i--) buf->buf[buf->wr++] = (uint8_t)(len >> (8 * i));`
unfoldable pub write_octets : ℕ → ℕ → Call Buf (Unit {0})
write_octets zero len = pure tt
write_octets (suc i) len = do put (u8 (len >>> 8 * i)); write_octets i len

unfoldable pub dlms_write_len : ℕ → Call Buf (Unit {0})
dlms_write_len len b =
    if ltb len 0x80
    then (do fail_if (ltb (buf_free b) 1) nomem; put (u8 len)) b
    else let n = min_octets_u32 len in
      (do fail_if (ltb (buf_free b) (1 + n)) nomem; put (u8 (bit_or 0x80 n)); write_octets n len) b

-- `for (uint8_t i = 0; i < n; i++) v = (v << 8) | buf->buf[buf->rd++];`
unfoldable pub read_octets : ℕ → ℕ → Call Buf ℕ
read_octets zero v = pure v
read_octets (suc n) v = do x ← next; read_octets n (bit_or (u32 (v << 8)) x)

unfoldable pub read_len_rest : ℕ → Call Buf ℕ
read_len_rest first b =
    if ltb first 0x80
    then ok first b
    else let n = bit_and first 0x7F in
      if n == 0
      then err unsupported b
      else if ltb 4 n || ltb (buf_unread b) n
      then err (if ltb 4 n then unsupported else invalid) b
      else read_octets n 0 b

unfoldable pub dlms_read_len : Call Buf ℕ
dlms_read_len b = (do fail_if (buf_unread b == 0) invalid; first ← next; read_len_rest first) b

-- `osp_ber_write_length` and `osp_ber_read_length` are calls of these, and the A-XDR ones too, which
-- return -1 for every error.
abbrev pub ber_read_length : Call Buf ℕ
ber_read_length = dlms_read_len

abbrev pub ber_write_length : ℕ → Call Buf (Unit {0})
ber_write_length = dlms_write_len

unfoldable pub axdr_push_length : ℕ → Call Buf (Unit {0})
axdr_push_length len = code (dlms_write_len len)

unfoldable pub axdr_read_length : Call Buf ℕ
axdr_read_length = code dlms_read_len

pub data Encoding : Type 0 where
  ber_acse axdr_xdlms unknown : Encoding

unfoldable pub encoding_for_apdu : ℕ → Encoding
encoding_for_apdu tag =
    if tag == 0x60 || tag == 0x61 || tag == 0x62 || tag == 0x63
    then ber_acse
    else if tag == 0xC0
        || tag == 0xC1
        || tag == 0xC2
        || tag == 0xC3
        || tag == 0xC4
        || tag == 0xC5
        || tag == 0xC7
        || tag == 0x0F
        || tag == 0xD8
    then axdr_xdlms
    else unknown
