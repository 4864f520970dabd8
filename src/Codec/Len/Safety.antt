-- ===== src/Codec/Len/Safety.antt =====
-- `osp_dlms_read_len` on any octets, well formed or not, against a description by cases.
use openspodes.Prelude.{
  ℕ, zero, suc, ◌-◌, ◌^◌, ◌≤◌, ◌<◌, ◌≡◌, refl, sym, ap, ◌∙◌, List, [], ◌∷◌, subst, ◌⊎◌, inl, inr,
  length, take, drop, length-take, take-append-drop, arith, ltb, ◌==◌, if◌then◌else◌,
}
use native.Mathlib.Decide.{dec_lt}
use openspodes.Prelude.Bits.{and_mask}
use openspodes.Err.{Err, Call, err, invalid, unsupported, step_ok}
use openspodes.Buf.{Buf, IsBuf, next}
use openspodes.Buf.View.{Reads, Consumes, Consumes-refl, next_lem, pending, buf_unread-pending}
use openspodes.Buf.Compose.{Consumes-trans, Reads-then}
use openspodes.Codec.Len.{read_octets, read_len_rest, dlms_read_len}
use openspodes.Codec.Len.RoundTrip.{
  number, AllBytes, read_octets_lem, rest_short, rest_long, not_empty,
}

-- The description: a value, or an error, and what is left.
pub data Parse : Type 0 where
  done : ℕ → List ℕ → Parse
  bad : Err → List ℕ → Parse

unfoldable pub parse_len : List ℕ → Parse
parse_len [] = bad invalid []
parse_len (x ∷ r) =
    if ltb x 0x80
    then done x r
    else if x == 0x80
    then bad unsupported r
    else if ltb 0x84 x
    then bad unsupported r
    else if ltb (length r) (x - 0x80)
    then bad invalid r
    else done (number 0 (take (x - 0x80) r)) (drop (x - 0x80) r)

-- The call ends as described, with the described octets still to be read.
abbrev pub Agrees : Call Buf ℕ → Buf → Parse → Type 0
Agrees m b (done v rest) = Reads m b v rest
Agrees m b (bad e rest) = (b' : Buf) × (m b ≡ err e b') × Consumes b rest b'

number-lt : (xs : List ℕ) → AllBytes xs → length xs ≤ 4 → number 0 xs < 2 ^ 32
number-lt [] h l = omega arith
number-lt (a ∷ []) h l = omega arith
number-lt (a ∷ b ∷ []) h l = omega arith
number-lt (a ∷ b ∷ c ∷ []) h l = omega arith
number-lt (a ∷ b ∷ c ∷ d ∷ []) h l = omega arith
number-lt (a ∷ b ∷ c ∷ d ∷ e ∷ r) h l = absurd (omega arith)

take-AllBytes : (n : ℕ) (xs : List ℕ) → AllBytes xs → AllBytes (take n xs)
take-AllBytes zero xs h = tt
take-AllBytes (suc n) [] h = tt
take-AllBytes (suc n) (x ∷ xs) h = (h.0, take-AllBytes n xs h.1)

-- How the call goes on behind a first octet of 0x80 or more, in each case.
module _ (x : ℕ) (c : Buf) (v : IsBuf c) where
  rest_zero : x ≡ 0x80 → read_len_rest x c ≡ err unsupported c
  unfolding read_len_rest
  rest_zero h = ground (arith, and_mask 7 x)

  rest_many : 0x84 < x → x < 256 → read_len_rest x c ≡ err unsupported c
  unfolding read_len_rest
  rest_many h k = ground (arith, and_mask 7 x)

  rest_cut : 0x80 < x → x ≤ 0x84 → length (pending c) < x - 0x80 → read_len_rest x c ≡ err invalid c
  unfolding read_len_rest
  rest_cut h k l = ground (arith, and_mask 7 x, buf_unread-pending c v)

  rest_full :
      (r : List ℕ)
      → AllBytes r
      → 0x80 < x
      → x ≤ 0x84
      → x - 0x80 ≤ length r
      → pending c ≡ r
      → Reads (read_len_rest x) c (number 0 (take (x - 0x80) r)) (drop (x - 0x80) r)
  rest_full r bytes h k l p =
      let n = x - 0x80 in
      let e : length (take n r) ≡ n = omega (arith, length-take n r) in
      let (d, run, q) =
        read_octets_lem (take n r) (drop n r) 0 c v (take-AllBytes n r bytes)
          (number-lt (take n r) (take-AllBytes n r bytes) (omega (arith, e)))
          (p ∙ sym (take-append-drop n r)) in
      (
        d,
        ap (λ (t : ℕ). read_len_rest t c) (omega arith)
            ∙ rest_long n c v (omega arith) (omega arith) (omega (arith, ap length p))
            ∙ ap (λ (t : ℕ). read_octets t 0 c) (sym e)
            ∙ run,
        q,
      )

go_on :
    (b : Buf) (x : ℕ) (r : List ℕ) (p : Parse)
    → IsBuf b
    → pending b ≡ x ∷ r
    → ((c : Buf) → Consumes b r c → Agrees (read_len_rest x) c p)
    → Agrees dlms_read_len b p
unfolding dlms_read_len
go_on b x r (done v rest) valid p k =
    rw (not_empty b x r valid p)
      (Reads-then next read_len_rest b x v r rest (next_lem b valid x r p) k)
go_on b x r (bad e rest) valid p k =
    let (c, run, q) = next_lem b valid x r p in
    let (d, run', q') = k c q in
    rw (not_empty b x r valid p) (d, step_ok next read_len_rest b run ∙ run', Consumes-trans q q')

-- Which case of the description an octet belongs to.
module _ (x : ℕ) (r : List ℕ) where
  parse_short : x < 0x80 → parse_len (x ∷ r) ≡ done x r
  unfolding parse_len
  parse_short h = ground arith

  parse_refused : (x ≡ 0x80) ⊎ (0x84 < x) → parse_len (x ∷ r) ≡ bad unsupported r
  unfolding parse_len
  parse_refused h = ground arith

  parse_cut : 0x80 < x → x ≤ 0x84 → length r < x - 0x80 → parse_len (x ∷ r) ≡ bad invalid r
  unfolding parse_len
  parse_cut h k l = ground arith

  parse_full :
      0x80 < x
      → x ≤ 0x84
      → x - 0x80 ≤ length r
      → parse_len (x ∷ r) ≡ done (number 0 (take (x - 0x80) r)) (drop (x - 0x80) r)
  unfolding parse_len
  parse_full h k l = ground arith

module _ (b : Buf) (v : IsBuf b) (x : ℕ) (r : List ℕ) (p : pending b ≡ x ∷ r) where
  by_case :
      (q : Parse)
      → parse_len (x ∷ r) ≡ q
      → ((c : Buf) → Consumes b r c → Agrees (read_len_rest x) c q)
      → Agrees dlms_read_len b (parse_len (x ∷ r))
  by_case q e k = subst (Agrees dlms_read_len b) (sym e) (go_on b x r q v p k)

  read_len_cons : x < 256 → AllBytes r → Agrees dlms_read_len b (parse_len (x ∷ r))
  read_len_cons hx bytes = elim (dec_lt x 0x80) [
    | yes h ↦
        by_case (done x r) (parse_short x r h)
          λ c q. (c, rest_short x c h, Consumes-refl c r q.valid q.left)
    | no h ↦ elim (dec_lt 0x84 x) [
      | yes big ↦
          by_case (bad unsupported r) (parse_refused x r (inr big))
            λ c q. (c, rest_many x c q.valid big hx, Consumes-refl c r q.valid q.left)
      | no small ↦ elim (dec_lt 0x80 x) [
        | no none ↦
            by_case (bad unsupported r) (parse_refused x r (inl (omega arith)))
              λ c q. (c, rest_zero x c q.valid (omega arith), Consumes-refl c r q.valid q.left)
        | yes some ↦ elim (dec_lt (length r) (x - 0x80)) [
          | yes cut ↦ by_case (bad invalid r) (parse_cut x r some (omega arith) cut) λ c q. (
            c,
            rest_cut x c q.valid some (omega arith) (omega (arith, ap length q.left)),
            Consumes-refl c r q.valid q.left,
          )
          | no full ↦
              by_case _ (parse_full x r some (omega arith) (omega arith))
                λ c q. rest_full x c q.valid r bytes some (omega arith) (omega arith) q.left
        ]
      ]
    ]
  ]

read_len_empty : (b : Buf) → IsBuf b → pending b ≡ [] → Agrees dlms_read_len b (parse_len [])
unfolding dlms_read_len parse_len
read_len_empty b v p =
    (b, ground (arith, buf_unread-pending b v, ap length p), Consumes-refl b [] v p)

-- On any octets `osp_dlms_read_len` does what the description says: which values it accepts, which
-- error it answers for each malformed length, and how many octets it has used up in each case.
pub read_len-refines :
    (b : Buf) → IsBuf b → AllBytes (pending b) → Agrees dlms_read_len b (parse_len (pending b))
read_len-refines b v bytes = go (pending b) refl bytes
  where
    go : (l : List ℕ) → pending b ≡ l → AllBytes l → Agrees dlms_read_len b (parse_len l)
    go [] p h = read_len_empty b v p
    go (x ∷ r) p h = read_len_cons b v x r p h.0 h.1
