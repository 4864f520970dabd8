-- ===== src/Codec/Ber/Octets.antt =====
-- BER octet strings: `osp_ber_read_octet_string` undoes `osp_ber_write_octet_string`. The bodies are
-- those of the A-XDR octet strings too.
use openspodes.Prelude.{
  ℕ, ◌+◌, ◌^◌, ◌≤◌, ◌<◌, ◌≡◌, ap, ◌∙◌, false, List, [], ◌++◌, length, take, drop, arith,
  append_assoc, length-append,
}
use openspodes.Prelude.Slices.{take-length-append, drop-length-append}
use openspodes.Err.{ok, ◌>>◌}
use openspodes.Buf.{Buf, IsBuf, octets_at}
use openspodes.Buf.View.{
  Reads, Writes, pending, content, put_all_lem, skip_lem, octets_at-pending, buf_unread-pending,
  buf_free-sub,
}
use openspodes.Buf.Compose.{Reads-then, Writes-then, Writes-Reads}
use openspodes.Codec.Len.{dlms_write_len, dlms_read_len}
use openspodes.Codec.Len.Format.{len_octets, write_len_fits}
use openspodes.Codec.Len.RoundTrip.{read_len_lem}
use openspodes.Codec.Ber.{
  ber_read_tag, ber_write_tag, read_string_body, write_string_body, ber_read_octet_string,
  ber_write_octet_string,
}
use openspodes.Codec.Ber.Tag.{write_tag_fits, tag_octets}
use openspodes.Codec.Ber.TagRead.{read_tag_lem, tag_with}

pub read_body_lem :
    (max : ℕ) (xs rest : List ℕ) (b : Buf)
    → IsBuf b
    → length xs ≤ max
    → pending b ≡ xs ++ rest
    → Reads (read_string_body max (length xs)) b xs rest
unfolding read_string_body
read_body_lem max xs rest b v fits p =
    let room : length xs ≤ length (pending b) = omega (arith, ap length p, length-append xs rest) in
    let (c, e, q) = skip_lem b v (length xs) room in
    let got : octets_at b (length xs) ≡ xs =
      octets_at-pending b v (length xs) room
      ∙ ap (take (length xs)) p
      ∙ take-length-append xs rest in
    (
      c,
      ground (arith, e, got, buf_unread-pending b v),
      record {
        valid = q.valid;
        left = q.left ∙ ap (drop (length xs)) p ∙ drop-length-append xs rest;
        same_content = q.same_content;
        same_size = q.same_size;
        same_wr = q.same_wr;
      },
    )

pub write_body_lem :
    (xs : List ℕ) (b : Buf)
    → IsBuf b
    → b.wr + length xs ≤ b.size
    → Writes (write_string_body xs) b xs
unfolding write_string_body
write_body_lem xs b v r =
    let (c, e, a) = put_all_lem xs b v r in (c, ground (arith, e, buf_free-sub b v), a)

abbrev pub ber_string : List ℕ → List ℕ
ber_string xs = tag_octets 0 false 4 ++ (len_octets (length xs) ++ xs)

write_string_fits :
    (xs : List ℕ) (b : Buf)
    → IsBuf b
    → b.wr + length (ber_string xs) ≤ b.size
    → Writes (ber_write_octet_string xs) b (ber_string xs)
unfolding ber_write_octet_string
write_string_fits xs b v r =
    let t = tag_octets 0 false 4 in
    let l = len_octets (length xs) in
    let e : length (ber_string xs) ≡ length t + (length l + length xs) =
      omega (arith, length-append t (l ++ xs), length-append l xs) in
    Writes-then (ber_write_tag 0 false 4) (dlms_write_len (length xs) >> write_string_body xs) b t
      (l ++ xs) (write_tag_fits 0 false 4 (omega arith) b v (omega arith) (omega (arith, e)))
      λ c a.
        Writes-then (dlms_write_len (length xs)) (write_string_body xs) c l xs
          (write_len_fits (length xs) c a.valid (omega (arith, e, a.moved, a.same_size)))
          λ d a'.
            write_body_lem xs d a'.valid
              (omega (arith, e, a.moved, a.same_size, a'.moved, a'.same_size))

read_string_lem :
    (max : ℕ) (xs rest : List ℕ) (b : Buf)
    → IsBuf b
    → length xs ≤ max
    → length xs < 2 ^ 32
    → pending b ≡ ber_string xs ++ rest
    → Reads (ber_read_octet_string max) b xs rest
unfolding ber_read_octet_string
read_string_lem max xs rest b v fits small p =
    let l = len_octets (length xs) in
    Reads-then ber_read_tag _ b (tag_with 0 false 4) xs (l ++ (xs ++ rest)) rest
      (read_tag_lem 0 false 4 (omega arith) (l ++ (xs ++ rest)) b v (omega arith) (
        p
        ∙ append_assoc (tag_octets 0 false 4) (l ++ xs) rest
        ∙ ap (λ t. tag_octets 0 false 4 ++ t) (append_assoc l xs rest)))
      λ c q.
        Reads-then dlms_read_len (read_string_body max) c (length xs) xs (xs ++ rest) rest
          (read_len_lem (length xs) (xs ++ rest) c q.valid small q.left)
          λ d q'. read_body_lem max xs rest d q'.valid fits q'.left

-- An octet string written by `osp_ber_write_octet_string` into a buffer with nothing left to read
-- is what `osp_ber_read_octet_string` copies into an array that is large enough.
pub read_string-write_string :
    (max : ℕ) (xs : List ℕ) (b : Buf)
    → IsBuf b
    → length xs ≤ max
    → length xs < 2 ^ 32
    → pending b ≡ []
    → b.wr + length (ber_string xs) ≤ b.size
    → (b' : Buf) × ((ber_write_octet_string xs >> ber_read_octet_string max) b ≡ ok xs b')
      × (content b' ≡ content b ++ ber_string xs)
      × (pending b' ≡ [])
read_string-write_string max xs b v fits small none_left room =
    Writes-Reads (ber_write_octet_string xs) (ber_read_octet_string max) b (ber_string xs) xs v
      none_left (write_string_fits xs b v room) λ c w p. read_string_lem max xs [] c w fits small p
