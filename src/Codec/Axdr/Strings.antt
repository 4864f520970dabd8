-- ===== src/Codec/Axdr/Strings.antt =====
-- A-XDR octet strings. The reader wants the tag 9 in front, which the writer does not write.
use openspodes.Prelude.{
  ℕ, ◌+◌, ◌^◌, ◌≤◌, ◌<◌, ◌≡◌, ◌≢◌, ap, ◌∙◌, List, [], ◌∷◌, ◌++◌, length, arith, append_assoc,
  length-append,
}
use native.Mathlib.Decide.{dec_lt}
use openspodes.Err.{ok, err, invalid, ◌>>◌, step_ok}
use openspodes.Buf.{Buf, IsBuf}
use openspodes.Buf.View.{
  Reads, Writes, pending, content, put_lem, next_lem, buf_unread-pending, buf_free-sub,
  pending-Appends,
}
use openspodes.Buf.Compose.{Reads-then, Writes-then, Writes-Reads}
use openspodes.Codec.Len.{dlms_write_len, dlms_read_len, min_octets_u32}
use openspodes.Codec.Len.Format.{len_octets, write_len_fits, short_form, long_form, big_endian}
use openspodes.Codec.Len.RoundTrip.{read_len_lem}
use openspodes.Codec.Ber.{read_string_body, write_string_body}
use openspodes.Codec.Ber.Octets.{read_body_lem, write_body_lem}
use openspodes.Codec.Axdr.{
  axdr_read_tag, axdr_write_tag, axdr_read_octet_string, axdr_write_octet_string, tag_octetstring,
}

abbrev pub axdr_string : List ℕ → List ℕ
axdr_string xs = len_octets (length xs) ++ xs

module _ (b : Buf) (v : IsBuf b) where
  pub read_tag_lem : (x : ℕ) (rest : List ℕ) → pending b ≡ x ∷ rest → Reads axdr_read_tag b x rest
  unfolding axdr_read_tag
  read_tag_lem x rest p =
      let (c, e, q) = next_lem b v x rest p in
      (c, ground (arith, e, buf_unread-pending b v, ap length p), q)

  pub write_tag_lem : (x : ℕ) → b.wr < b.size → Writes (axdr_write_tag x) b (x ∷ [])
  unfolding axdr_write_tag
  write_tag_lem x r = let (c, e, a) = put_lem x b v r in (c, ground (arith, e, buf_free-sub b v), a)

  pub write_string_lem :
      (xs : List ℕ)
      → b.wr + length (axdr_string xs) ≤ b.size
      → Writes (axdr_write_octet_string xs) b (axdr_string xs)
  unfolding axdr_write_octet_string
  write_string_lem xs r =
      let l = len_octets (length xs) in
      Writes-then (dlms_write_len (length xs)) (write_string_body xs) b l xs
        (write_len_fits (length xs) b v (omega (arith, r, length-append l xs)))
        λ d a.
          write_body_lem xs d a.valid (omega (arith, r, length-append l xs, a.moved, a.same_size))

  read_string_lem :
      (max : ℕ) (xs rest : List ℕ)
      → length xs ≤ max
      → length xs < 2 ^ 32
      → pending b ≡ tag_octetstring ∷ (axdr_string xs ++ rest)
      → Reads (axdr_read_octet_string max) b xs rest
  unfolding axdr_read_octet_string
  read_string_lem max xs rest fits small p =
      Reads-then axdr_read_tag _ b 9 xs (axdr_string xs ++ rest) rest
        (read_tag_lem 9 (axdr_string xs ++ rest) p)
        λ c q.
          Reads-then dlms_read_len (read_string_body max) c (length xs) xs (xs ++ rest) rest
            (read_len_lem (length xs) (xs ++ rest) c q.valid small
              (q.left ∙ append_assoc (len_octets (length xs)) xs rest))
            λ d q'. read_body_lem max xs rest d q'.valid fits q'.left

-- An octet string written behind the tag 9, into a buffer with nothing left to read, is what
-- `osp_axdr_read_octet_string` copies into an array that is large enough.
pub axdr_read_string-write_string :
    (max : ℕ) (xs : List ℕ) (b : Buf)
    → IsBuf b
    → length xs ≤ max
    → length xs < 2 ^ 32
    → pending b ≡ []
    → b.wr + (1 + length (axdr_string xs)) ≤ b.size
    → (c : Buf) × (((axdr_write_tag tag_octetstring >> axdr_write_octet_string xs)
            >> axdr_read_octet_string max)
          b
        ≡ ok xs c)
      × (content c ≡ content b ++ (tag_octetstring ∷ axdr_string xs))
      × (pending c ≡ [])
axdr_read_string-write_string max xs b v fits small none_left room =
    Writes-Reads (axdr_write_tag 9 >> axdr_write_octet_string xs) (axdr_read_octet_string max) b
      (9 ∷ axdr_string xs) xs v none_left
      (Writes-then (axdr_write_tag 9) (axdr_write_octet_string xs) b (9 ∷ []) (axdr_string xs)
        (write_tag_lem b v 9 (omega arith))
        λ c a. write_string_lem c a.valid xs (omega (arith, a.moved, a.same_size)))
      λ c w p. read_string_lem c w max xs [] fits small p

-- The first octet of a length is the length, or 0x81 and more.
first_of_length :
    (n : ℕ) (b : Buf) → IsBuf b → (x : ℕ) × (t : List ℕ) × (len_octets n ≡ x ∷ t) × (n ≢ 9 → x ≢ 9)
first_of_length n b v = elim (dec_lt n 0x80) [
  | yes h ↦ (n, [], short_form n b v h, λ k. k)
  | no h ↦ (
    0x80 + min_octets_u32 n,
    big_endian (min_octets_u32 n) n,
    long_form n b v (omega arith),
    λ _. omega arith,
  )
]

wrong_tag :
    (max x : ℕ) (rest : List ℕ) (b : Buf)
    → IsBuf b
    → x ≢ 9
    → pending b ≡ x ∷ rest
    → (c : Buf) × (axdr_read_octet_string max b ≡ err invalid c)
unfolding axdr_read_octet_string
wrong_tag max x rest b v ne p =
    let (c, e, q) = read_tag_lem b v x rest p in (c, step_ok axdr_read_tag _ b e ∙ ground arith)

-- What `osp_axdr_write_octet_string` alone writes is refused by `osp_axdr_read_octet_string` with
-- INVALID, for every string but one of nine octets.
pub axdr_string_untagged :
    (max : ℕ) (xs : List ℕ) (b : Buf)
    → IsBuf b
    → length xs ≢ 9
    → pending b ≡ []
    → b.wr + length (axdr_string xs) ≤ b.size
    → (c : Buf) × ((axdr_write_octet_string xs >> axdr_read_octet_string max) b ≡ err invalid c)
axdr_string_untagged max xs b v ne none_left room =
    let (c, e, a) = write_string_lem b v xs room in
    let (x, t, f, first) = first_of_length (length xs) b v in
    let p : pending c ≡ x ∷ (t ++ xs) =
      pending-Appends (axdr_string xs) v a
      ∙ ap (λ l. l ++ axdr_string xs) none_left
      ∙ ap (λ l. l ++ xs) f in
    let (d, e') = wrong_tag max x (t ++ xs) c a.valid (first ne) p in
    (d, step_ok (axdr_write_octet_string xs) (λ _. axdr_read_octet_string max) b e ∙ e')
