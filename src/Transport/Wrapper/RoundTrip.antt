-- ===== src/Transport/Wrapper/RoundTrip.antt =====
-- `osp_wrapper_decode` reads what `osp_wrapper_encode` wrote, and nothing else.
use openspodes.Prelude.{
  ℕ, zero, suc, ◌+◌, ◌*◌, ◌%◌, ◌^◌, ◌≤◌, ◌<◌, ◌≡◌, refl, sym, ap, ap₂, ◌∙◌, List, [], ◌∷◌, ◌++◌,
  length, length-append, take, drop, arith, u8, u16, ◌<<◌, ◌>>>◌, bit_and, bit_or, subst,
  length-drop,
}
use openspodes.Prelude.Bits.{or_fields, and_mask}
use openspodes.Codec.Len.RoundTrip.{AllBytes}
use openspodes.Err.{ok, done}
use openspodes.Transport.Wrapper.{
  WrapperHeader, wrapper_encode, wrapper_decode, wrapper_version, read_header, header_word,
}

-- A sixteen-bit word is its two octets.
word_back : (w : ℕ) → u16 (bit_or (u8 (w >>> 8) << 8) (u8 (bit_and w 0xFF))) ≡ w % 2 ^ 16
word_back w =
    ap (λ (t : ℕ). t % 2 ^ 16) (or_fields 8 (u8 (w >>> 8)) (u8 (bit_and w 0xFF)) (omega arith))
    ∙ omega (arith, and_mask 8 w)

abbrev header_octets : ℕ → ℕ → ℕ → List ℕ
header_octets source dest n =
    0x00
    ∷ 0x01
    ∷ u8 (source >>> 8)
    ∷ u8 (bit_and source 0xFF)
    ∷ u8 (dest >>> 8)
    ∷ u8 (bit_and dest 0xFF)
    ∷ u8 (n >>> 8)
    ∷ u8 (bit_and n 0xFF)
    ∷ []

take-append : {A : Type 0} (k : ℕ) (xs ys : List A) → k ≤ length xs → take k (xs ++ ys) ≡ take k xs
take-append zero xs ys h = refl
take-append (suc k) [] ys h = absurd (omega arith)
take-append (suc k) (x ∷ xs) ys h = ap (λ t. x ∷ t) (take-append k xs ys (omega arith))

-- An APDU that fits the buffer is written, and `osp_wrapper_decode` of the octets, with anything
-- behind them, gives its addresses and the first octets of the APDU, as many as its length modulo
-- 2 ^ 16: all of it below that, and only those above.
pub wrapper_decode-encode :
    (source dest max : ℕ) (apdu rest : List ℕ) (h : WrapperHeader)
    → source < 2 ^ 16
    → dest < 2 ^ 16
    → length apdu + 8 < 2 ^ 32
    → length apdu + 8 ≤ max
    → (d : List ℕ) × (wrapper_encode source dest apdu max ≡ done d)
      × (wrapper_decode (d ++ rest) h
          ≡ ok (take (length apdu % 2 ^ 16) apdu) (record {
            version = wrapper_version;
            source = source;
            destination = dest;
            length = length apdu % 2 ^ 16;
          }))
unfolding wrapper_encode wrapper_decode
wrapper_decode-encode source dest max apdu rest h s t small room =
    let n = length apdu in
    let p : source % 2 ^ 16 ≡ source = omega arith in
    let q : dest % 2 ^ 16 ≡ dest = omega arith in
    (
      header_octets source dest n ++ apdu,
      ground arith,
      rw (word_back source, word_back dest, word_back n, p, q)
          (ground
            (arith, length-append apdu rest, take-append (n % 2 ^ 16) apdu rest (omega arith))),
    )

take-drop : {A : Type 0} (k : ℕ) (xs : List A) → take k xs ++ drop k xs ≡ xs
take-drop zero xs = refl
take-drop (suc k) [] = refl
take-drop (suc k) (x ∷ xs) = ap (λ t. x ∷ t) (take-drop k xs)

length-take_below : {A : Type 0} (k : ℕ) (xs : List A) → k ≤ length xs → length (take k xs) ≡ k
length-take_below zero xs h = refl
length-take_below (suc k) [] h = absurd (omega arith)
length-take_below (suc k) (x ∷ xs) h = ground (arith, length-take_below k xs (omega arith))

word_octets :
    (a b : ℕ)
    → a < 256
    → b < 256
    → (u8 (u16 (bit_or (a << 8) b) >>> 8) ≡ a) × (u8 (bit_and (u16 (bit_or (a << 8) b)) 0xFF) ≡ b)
word_octets a b p q =
    let e : bit_or (a << 8) b ≡ a * 2 ^ 8 + b = or_fields 8 a b (omega arith) in
    omega (arith, e, and_mask 8 (u16 (bit_or (a << 8) b)))

-- What a successful decoding shows of the octets.
accepted :
    (d a : List ℕ) (h g : WrapperHeader)
    → wrapper_decode d h ≡ ok a g
    → (8 ≤ length d)
      × (read_header d ≡ g)
      × (header_word d 0 ≡ 1)
      × (header_word d 6 + 8 ≤ length d)
      × (take (header_word d 6) (drop 8 d) ≡ a)
unfolding wrapper_decode
accepted d a h g e = ground arith

encoded :
    (source dest : ℕ) (a : List ℕ)
    → length a < 2 ^ 16
    → wrapper_encode source dest a (length a + 8) ≡ done (header_octets source dest (length a) ++ a)
unfolding wrapper_encode
encoded source dest a small = ground arith

word_lt : (d : List ℕ) (i : ℕ) → header_word d i < 2 ^ 16
word_lt d i = omega arith

-- The header's octets, from the fields that are read.
header_back :
    (d : List ℕ)
    → AllBytes d
    → 8 ≤ length d
    → header_word d 0 ≡ 1
    → header_octets (header_word d 2) (header_word d 4) (header_word d 6) ++ drop 8 d ≡ d
header_back (a ∷ b ∷ c ∷ e ∷ f ∷ g ∷ i ∷ j ∷ t)
      (a_lt, (b_lt, (c_lt, (e_lt, (f_lt, (g_lt, (i_lt, (j_lt, ts)))))))) h v =
    let (a_is, b_is) = word_octets a b a_lt b_lt in
    let (c_is, e_is) = word_octets c e c_lt e_lt in
    let (f_is, g_is) = word_octets f g f_lt g_lt in
    let (i_is, j_is) = word_octets i j i_lt j_lt in
    let zero_a : 0 ≡ a = sym (ap (λ (w : ℕ). u8 (w >>> 8)) v) ∙ a_is in
    let one_b : 1 ≡ b = sym (ap (λ (w : ℕ). u8 (bit_and w 0xFF)) v) ∙ b_is in
    rw (c_is, e_is, f_is, g_is, i_is, j_is, zero_a, one_b) refl
header_back _ bytes h v = absurd (omega arith)

abbrev BeginsEncoded : List ℕ → List ℕ → WrapperHeader → Type 0
BeginsEncoded d a g =
    (e : List ℕ) × (rest : List ℕ) × (wrapper_encode g.source g.destination a (length a + 8)
      ≡ done e)
    × (e ++ rest ≡ d)

begins_encoded :
    (d a : List ℕ)
    → AllBytes d
    → 8 ≤ length d
    → header_word d 0 ≡ 1
    → header_word d 6 + 8 ≤ length d
    → take (header_word d 6) (drop 8 d) ≡ a
    → BeginsEncoded d a (read_header d)
begins_encoded d a bytes long version fits body =
    let n = header_word d 6 in
    let rest = drop n (drop 8 d) in
    let count : length a ≡ n =
      sym (ap length body) ∙ length-take_below n (drop 8 d) (omega (arith, length-drop 8 d)) in
    (
      header_octets (header_word d 2) (header_word d 4) (length a) ++ a,
      rest,
      encoded (header_word d 2) (header_word d 4) a (omega (arith, count)),
      ap₂ (λ (m : ℕ) t. header_octets (header_word d 2) (header_word d 4) m ++ (t ++ rest)) count
            (sym body)
          ∙ ap (λ t. header_octets (header_word d 2) (header_word d 4) n ++ t)
              (take-drop n (drop 8 d))
          ∙ header_back d bytes long version,
    )

-- Octets that `osp_wrapper_decode` accepts begin with those that `osp_wrapper_encode` writes for the
-- addresses and the APDU that it gives; what follows them is left over.
pub wrapper_encode-decode :
    (d a : List ℕ) (h g : WrapperHeader)
    → AllBytes d
    → wrapper_decode d h ≡ ok a g
    → (e : List ℕ) × (rest : List ℕ) × (wrapper_encode g.source g.destination a (length a + 8)
        ≡ done e)
      × (e ++ rest ≡ d)
wrapper_encode-decode d a h g bytes ok_ag =
    let (long, fields, version, fits, body) = accepted d a h g ok_ag in
    subst (BeginsEncoded d a) fields (begins_encoded d a bytes long version fits body)
