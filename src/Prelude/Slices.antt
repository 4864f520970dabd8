-- ===== src/Prelude/Slices.antt =====
-- `take`, `drop`, `set` and runs of `set` together: what a write at an index does to the part of
-- an array before it, and what a read at an index finds.
use Prim.Native.Nat.{ℕ, zero, suc, ◌+◌, ◌-◌, ◌≤◌, ◌<◌, min}
use mathlib.Core.Path.{◌≡◌, refl, sym, ap, ◌∙◌}
use mathlib.Core.List.{List, [], ◌∷◌, ◌++◌, append-nil, append_assoc}
use native.Mathlib.Nat.{add-zero}
use native.Mathlib.Omega.{arith}
use openspodes.Prelude.Lists.{length, length-set, get_or, set, take, drop}

module _ {ℓ} {A : Type ℓ} where
  -- `memcpy` into an array, from index `i` on.
  abbrev pub blit : List A → ℕ → List A → List A
  blit mem i [] = mem
  blit mem i (x ∷ xs) = blit (set mem i x) (suc i) xs

  pub take-set :
      (mem : List A) (n : ℕ) (v : A)
      → n < length mem
      → take (suc n) (set mem n v) ≡ take n mem ++ (v ∷ [])
  take-set [] n v h = absurd (omega arith)
  take-set (x ∷ xs) zero v h = refl
  take-set (x ∷ xs) (suc n) v h = ap (λ t. x ∷ t) (take-set xs n v (omega arith))

  pub drop-take-cons :
      (mem : List A) (i n : ℕ) (d : A)
      → i < n
      → n ≤ length mem
      → drop i (take n mem) ≡ get_or mem i d ∷ drop (suc i) (take n mem)
  drop-take-cons mem i zero d p q = absurd (omega arith)
  drop-take-cons [] i (suc n) d p q = absurd (omega arith)
  drop-take-cons (x ∷ xs) zero (suc n) d p q = refl
  drop-take-cons (x ∷ xs) (suc i) (suc n) d p q =
      drop-take-cons xs i n d (omega arith) (omega arith)

  pub drop-nil : (i : ℕ) → drop {A = A} i [] ≡ []
  drop-nil zero = refl
  drop-nil (suc i) = refl

  pub length-drop-take :
      (mem : List A) (i n : ℕ) → n ≤ length mem → length (drop i (take n mem)) ≡ n - i
  length-drop-take mem i zero q = rw (drop-nil i) (omega arith)
  length-drop-take [] i (suc n) q = absurd (omega arith)
  length-drop-take (x ∷ xs) zero (suc n) q = omega (arith, length-drop-take xs 0 n (omega arith))
  length-drop-take (x ∷ xs) (suc i) (suc n) q = omega (arith, length-drop-take xs i n (omega arith))

  pub drop-append : (xs ys : List A) (n : ℕ) → n ≤ length xs → drop n (xs ++ ys) ≡ drop n xs ++ ys
  drop-append xs ys zero h = refl
  drop-append [] ys (suc n) h = absurd (omega arith)
  drop-append (x ∷ xs) ys (suc n) h = drop-append xs ys n (omega arith)

  pub take-length-append : (xs ys : List A) → take (length xs) (xs ++ ys) ≡ xs
  take-length-append [] ys = refl
  take-length-append (x ∷ xs) ys = ap (λ t. x ∷ t) (take-length-append xs ys)

  pub drop-length-append : (xs ys : List A) → drop (length xs) (xs ++ ys) ≡ ys
  drop-length-append [] ys = refl
  drop-length-append (x ∷ xs) ys = drop-length-append xs ys

  pub take-length : (xs : List A) → take (length xs) xs ≡ xs
  take-length [] = refl
  take-length (x ∷ xs) = ap (λ t. x ∷ t) (take-length xs)

  pub length-blit : (xs mem : List A) (i : ℕ) → length (blit mem i xs) ≡ length mem
  length-blit [] mem i = refl
  length-blit (x ∷ xs) mem i = length-blit xs (set mem i x) (suc i) ∙ length-set mem i x

  pub take-blit :
      (xs mem : List A) (n : ℕ)
      → n + length xs ≤ length mem
      → take (n + length xs) (blit mem n xs) ≡ take n mem ++ xs
  take-blit [] mem n h = rw (append-nil (take n mem), add-zero n) refl
  take-blit (x ∷ xs) mem n h =
      let e : n + suc (length xs) ≡ suc n + length xs = omega arith in
      rw e (
        take-blit xs (set mem n x) (suc n) (omega (arith, length-set mem n x))
        ∙ ap (λ t. t ++ xs) (take-set mem n x (omega arith))
        ∙ append_assoc (take n mem) (x ∷ []) xs)

  pub drop-drop : (xs : List A) (i n : ℕ) → drop i (drop n xs) ≡ drop (n + i) xs
  drop-drop xs i zero = ap (λ (t : ℕ). drop t xs) (omega arith)
  drop-drop [] i (suc n) = drop-nil i ∙ sym (drop-nil (suc n + i))
  drop-drop (x ∷ xs) i (suc n) =
      let e : suc n + i ≡ suc (n + i) = omega arith in rw e (drop-drop xs i n)

  pub get_or-drop : (xs : List A) (i n : ℕ) (d : A) → get_or (drop n xs) i d ≡ get_or xs (n + i) d
  get_or-drop xs i zero d = ap (λ (t : ℕ). get_or xs t d) (omega arith)
  get_or-drop [] i (suc n) d = refl
  get_or-drop (x ∷ xs) i (suc n) d =
      let e : suc n + i ≡ suc (n + i) = omega arith in rw e (get_or-drop xs i n d)

  pub get_or-take : (xs : List A) (i n : ℕ) (d : A) → i < n → get_or (take n xs) i d ≡ get_or xs i d
  get_or-take xs i zero d h = absurd (omega arith)
  get_or-take [] i (suc n) d h = refl
  get_or-take (x ∷ xs) zero (suc n) d h = refl
  get_or-take (x ∷ xs) (suc i) (suc n) d h = get_or-take xs i n d (omega arith)

  -- A run that lies within the first `n` items is the same run of the whole.
  pub take-drop-take :
      (xs : List A) (k i n : ℕ) → i + k ≤ n → take k (drop i (take n xs)) ≡ take k (drop i xs)
  take-drop-take xs zero i n h = refl
  take-drop-take xs (suc k) i zero h = absurd (omega arith)
  take-drop-take [] (suc k) i (suc n) h = refl
  take-drop-take (x ∷ xs) (suc k) zero (suc n) h =
      ap (λ t. x ∷ t) (take-drop-take xs k zero n (omega arith))
  take-drop-take (x ∷ xs) (suc k) (suc i) (suc n) h = take-drop-take xs (suc k) i n (omega arith)

  pub get_or-append :
      (xs ys : List A) (i : ℕ) (d : A) → get_or (xs ++ ys) (length xs + i) d ≡ get_or ys i d
  get_or-append [] ys i d = ap (λ (t : ℕ). get_or ys t d) (omega arith)
  get_or-append (x ∷ xs) ys i d =
      let e : suc (length xs) + i ≡ suc (length xs + i) = omega arith in
      rw e (get_or-append xs ys i d)

  pub take-nil : (n : ℕ) → take {A = A} n [] ≡ []
  take-nil zero = refl
  take-nil (suc n) = refl

  pub take-all : (n : ℕ) (xs : List A) → length xs ≤ n → take n xs ≡ xs
  take-all n [] h = take-nil n
  take-all zero (x ∷ xs) h = absurd (omega arith)
  take-all (suc n) (x ∷ xs) h = ap (λ t. x ∷ t) (take-all n xs (omega arith))

  pub take-min : (n : ℕ) (xs : List A) → take (min (length xs) n) xs ≡ take n xs
  take-min n [] = take-nil (min 0 n) ∙ sym (take-nil n)
  take-min zero (x ∷ xs) = ap (λ (t : ℕ). take t (x ∷ xs)) {y = 0} (omega arith)
  take-min (suc n) (x ∷ xs) =
      ap (λ (t : ℕ). take t (x ∷ xs)) {y = suc (min (length xs) n)} (omega arith)
      ∙ ap (λ t. x ∷ t) (take-min n xs)

  -- A piece more is taken.
  pub take-add : (a b : ℕ) (xs : List A) → take a xs ++ take b (drop a xs) ≡ take (a + b) xs
  take-add zero b xs = ap (λ (t : ℕ). take t xs) (omega arith)
  take-add (suc a) b [] = take-nil b ∙ sym (take-nil (suc a + b))
  take-add (suc a) b (x ∷ xs) =
      ap (λ t. x ∷ t) (take-add a b xs)
      ∙ ap (λ (t : ℕ). take t (x ∷ xs)) {x = suc (a + b)} (omega arith)
