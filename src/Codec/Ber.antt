-- ===== src/Codec/Ber.antt =====
-- src/codec/codec.c, "BER read" and "BER write": tags, unsigned integers and octet strings.
-- `osp_ber_tag_t` has a fourth field, `length`, which `osp_ber_read_tag` leaves alone.
pub mod Tag
pub mod Uint
pub mod TagRead
pub mod Octets
use openspodes.Prelude.{
  ℕ, zero, suc, ◌+◌, ◌-◌, ◌*◌, Bool, true, false, List, [], ◌∷◌, length, get_or, ltb, leb, ◌==◌,
  not, if◌then◌else◌, u8, u32, ◌<<◌, ◌>>>◌, bit_and, bit_or,
}
use openspodes.Err.{Call, ok, err, ◌>>=◌, ◌>>◌, pure, fail, fail_if, nomem, invalid, unsupported}
use openspodes.Buf.{Buf, buf_unread, buf_free, next, put, put_all, octets_at, skip}
use openspodes.Codec.Len.{ber_read_length, ber_write_length}

pub record BerTag : Type 0 where
  pub tag_class : ℕ
  pub tag_constructed : ℕ
  pub tag_number : ℕ

-- The do-while loop over the octets of a long tag number. Its fuel is the count of octets left,
-- and the loop answers INVALID when there is none.
unfoldable pub read_long_tag : ℕ → ℕ → Call Buf ℕ
read_long_tag zero number b = err invalid b
read_long_tag (suc fuel) number b =
    let loop = λ (n : ℕ). read_long_tag fuel n in
    (do
      fail_if (buf_unread b == 0) invalid
      byte ← next
      let number' = u8 (bit_or (number << 7) (bit_and byte 0x7F))
      elim (bit_and byte 0x80 == 0) [ true ↦ pure number' | false ↦ loop number' ])
      b

unfoldable pub ber_read_tag_number : ℕ → Call Buf BerTag
ber_read_tag_number first b =
    let tag : ℕ → BerTag = λ n. record {
      tag_class = bit_and (first >>> 6) 0x03;
      tag_constructed = bit_and (first >>> 5) 0x01;
      tag_number = n;
    } in
    if bit_and first 0x1F == 0x1F
    then (do n ← read_long_tag (buf_unread b) 0; pure (tag n)) b
    else ok (tag (bit_and first 0x1F)) b

unfoldable pub ber_read_tag : Call Buf BerTag
ber_read_tag b = (do fail_if (buf_unread b == 0) invalid; first ← next; ber_read_tag_number first) b

-- `while (unread-- > 0) *val = (*val << 8) | buf->buf[buf->rd++];`
unfoldable pub read_uint_loop : ℕ → ℕ → Call Buf ℕ
read_uint_loop zero val = pure val
read_uint_loop (suc n) val = do x ← next; read_uint_loop n (bit_or (u32 (val << 8)) x)

unfoldable pub ber_read_uint : Call Buf ℕ
ber_read_uint b =
    (do
      fail_if (buf_unread b == 0) invalid
      fail_if (ltb 4 (buf_unread b)) unsupported
      read_uint_loop (buf_unread b) 0)
      b

-- `len` octets into the caller's array of `max_len`.
unfoldable pub read_string_body : ℕ → ℕ → Call Buf (List ℕ)
read_string_body max_len len b =
    (do
      fail_if (ltb max_len len) nomem
      fail_if (ltb (buf_unread b) len) invalid
      skip len
      pure (octets_at b len))
      b

unfoldable pub ber_read_octet_string : ℕ → Call Buf (List ℕ)
ber_read_octet_string max_len = do
  tag ← ber_read_tag
  fail_if (not (tag.tag_number == 4)) invalid
  len ← ber_read_length
  read_string_body max_len len

-- The do-while loop that splits a long tag number, lowest group first; a uint8_t has two groups at
-- most, which the fuel covers.
unfoldable pub tag_groups : ℕ → ℕ → List ℕ
tag_groups zero val = []
tag_groups (suc fuel) val =
    let rest = tag_groups fuel (val >>> 7) in
    bit_and val 0x7F ∷ (if ltb 0 (val >>> 7) then rest else [])

-- `for (int i = n - 1; i >= 0; i--) buf->buf[buf->wr++] = temp[i] | (i > 0 ? 0x80 : 0x00);`
unfoldable pub write_groups : ℕ → List ℕ → Call Buf (Unit {0})
write_groups zero temp = pure tt
write_groups (suc i) temp = do
  put (bit_or (get_or temp i 0) (if ltb 0 i then 0x80 else 0x00))
  write_groups i temp

unfoldable pub ber_write_tag : ℕ → Bool → ℕ → Call Buf (Unit {0})
ber_write_tag tag_class constructed tag_number b =
    let first = u8 (bit_or (bit_and tag_class 0x03 << 6) ((if constructed then 1 else 0) << 5)) in
    if ltb tag_number 0x1F
    then (do fail_if (ltb (buf_free b) 1) nomem; put (bit_or first tag_number)) b
    else let temp = tag_groups 2 tag_number in
      (do
        fail_if (ltb (buf_free b) (1 + length temp)) nomem
        put (bit_or first 0x1F)
        write_groups (length temp) temp)
        b

unfoldable pub ber_write_uint : ℕ → Call Buf (Unit {0})
ber_write_uint val b =
    if ltb val 0x80
    then (do fail_if (ltb (buf_free b) 1) nomem; put (u8 val)) b
    else if leb val 0xFF
    then (do fail_if (ltb (buf_free b) 2) nomem; put (u8 val)) b
    else if leb val 0xFFFF
    then (do fail_if (ltb (buf_free b) 3) nomem; put (u8 (val >>> 8)); put (u8 (bit_and val 0xFF)))
        b
    else (do
      fail_if (ltb (buf_free b) 5) nomem
      put (u8 (val >>> 24))
      put (u8 (val >>> 16))
      put (u8 (val >>> 8))
      put (u8 (bit_and val 0xFF)))
        b

-- `if (osp_buf_free(buf) < len) return NOMEM;` and the copy.
unfoldable pub write_string_body : List ℕ → Call Buf (Unit {0})
write_string_body xs b = (do fail_if (ltb (buf_free b) (length xs)) nomem; put_all xs) b

unfoldable pub ber_write_octet_string : List ℕ → Call Buf (Unit {0})
ber_write_octet_string xs = do
  ber_write_tag 0 false 4
  ber_write_length (length xs)
  write_string_body xs
