-- ===== src/Prelude/Xor.antt =====
-- `^` of native numbers: a commutative, associative operation whose own inverse is itself, which
-- acts on the high and the low part of a word separately.
use Prim.Native.Nat.{ℕ, zero, suc, ◌+◌, ◌-◌, ◌*◌, ◌/◌, ◌%◌, ◌^◌, ◌≤◌, ◌<◌, bit_xor, bit_xor-bitwise}
use mathlib.Core.Path.{◌≡◌, refl, sym, ap, ap₂, ◌∙◌}
use native.Mathlib.Nat.{
  le_refl, pow-suc, div-div-eq-div-mul, div-one, add-zero, div-add-mod, mod-lt, one-le-pow, mul-one,
  mul_comm,
}
use native.Mathlib.Omega.{arith}
use openspodes.Prelude.Bits.{bit_xor_digit}

pub zero_xor : (a : ℕ) → bit_xor 0 a ≡ a
zero_xor a = bit_xor-bitwise 0 a

pub xor-half : (a b : ℕ) → bit_xor a b / 2 ≡ bit_xor (a / 2) (b / 2)
xor-half a b = omega (arith, bit_xor_digit a b)

pub xor-parity : (a b : ℕ) → bit_xor a b % 2 ≡ (a % 2 + b % 2) % 2
xor-parity a b = omega (arith, bit_xor_digit a b)

comm_below : (n a b : ℕ) → a + b ≤ n → bit_xor a b ≡ bit_xor b a
comm_below zero a b h = let p : a ≡ 0 = omega arith in let q : b ≡ 0 = omega arith in rw (p, q) refl
comm_below (suc n) zero zero h = refl
comm_below (suc n) zero (suc b) h = omega (
  arith,
  bit_xor_digit 0 (suc b),
  bit_xor_digit (suc b) 0,
  comm_below n 0 (suc b / 2) (omega arith),
)
comm_below (suc n) (suc a) b h = omega (
  arith,
  bit_xor_digit (suc a) b,
  bit_xor_digit b (suc a),
  comm_below n (suc a / 2) (b / 2) (omega arith),
)

pub xor_comm : (a b : ℕ) → bit_xor a b ≡ bit_xor b a
xor_comm a b = comm_below (a + b) a b (le_refl _)

assoc_below : (n a b c : ℕ) → a ≤ n → bit_xor (bit_xor a b) c ≡ bit_xor a (bit_xor b c)
assoc_below n zero b c h = simp zero_xor
assoc_below zero (suc a) b c h = absurd (omega arith)
assoc_below (suc n) (suc a) b c h = ground (
  arith,
  bit_xor_digit (bit_xor (suc a) b) c,
  bit_xor_digit (suc a) (bit_xor b c),
  xor-half (suc a) b,
  xor-half b c,
  xor-parity (suc a) b,
  xor-parity b c,
  assoc_below n (suc a / 2) (b / 2) (c / 2) (omega arith),
)

pub xor_assoc : (a b c : ℕ) → bit_xor (bit_xor a b) c ≡ bit_xor a (bit_xor b c)
xor_assoc a b c = assoc_below a a b c (le_refl a)

self_below : (n a : ℕ) → a ≤ n → bit_xor a a ≡ 0
self_below n zero h = refl
self_below zero (suc a) h = absurd (omega arith)
self_below (suc n) (suc a) h =
    omega (arith, bit_xor_digit (suc a) (suc a), self_below n (suc a / 2) (omega arith))

pub xor_self : (a : ℕ) → bit_xor a a ≡ 0
xor_self a = self_below a a (le_refl a)

-- A word of `k` bits stays one.
pub xor-lt : (k a b : ℕ) → a < 2 ^ k → b < 2 ^ k → bit_xor a b < 2 ^ k
xor-lt zero a b p q =
    let e : a ≡ 0 = omega arith in let f : b ≡ 0 = omega arith in rw (e, f) (omega arith)
xor-lt (suc k) a b p q = omega (
  arith,
  bit_xor_digit a b,
  pow-suc 2 k,
  xor-lt k (a / 2) (b / 2) (omega (arith, pow-suc 2 k)) (omega (arith, pow-suc 2 k)),
)

pow_two_suc : (k : ℕ) → 2 ^ suc k ≡ 2 * 2 ^ k
pow_two_suc k = omega (arith, pow-suc 2 k)

halve_power : (a k : ℕ) → a / 2 ^ suc k ≡ a / 2 / 2 ^ k
halve_power a k =
    omega (arith, div-div-eq-div-mul a 2 (2 ^ k), ap (λ (t : ℕ). a / t) (pow_two_suc k))

-- Shifting right commutes with `^`.
pub xor-shift : (k a b : ℕ) → bit_xor a b / 2 ^ k ≡ bit_xor (a / 2 ^ k) (b / 2 ^ k)
xor-shift zero a b = div-one (bit_xor a b) ∙ sym (ap₂ bit_xor (div-one a) (div-one b))
xor-shift (suc k) a b =
    rw (halve_power (bit_xor a b) k, halve_power a k, halve_power b k, xor-half)
      (xor-shift k (a / 2) (b / 2))

double_two_power : (q k : ℕ) → q * 2 ^ suc k ≡ 2 * (q * 2 ^ k)
double_two_power q k = omega (arith, ap (λ (t : ℕ). q * t) (pow-suc 2 k))

-- Fields that do not overlap add up.
pub xor_fields : (k q r : ℕ) → r < 2 ^ k → bit_xor (q * 2 ^ k) r ≡ q * 2 ^ k + r
xor_fields zero q r h =
    let e : r ≡ 0 = omega arith in rw (e, xor_comm) (zero_xor (q * 1) ∙ sym (add-zero (q * 1)))
xor_fields (suc k) q r h = omega (
  arith,
  bit_xor_digit (q * 2 ^ suc k) r,
  double_two_power q k,
  ap (λ (t : ℕ). bit_xor t (r / 2)) (halves q k),
  xor_fields k q (r / 2) (omega (arith, pow-suc 2 k)),
)
  where
    halves : (q k : ℕ) → q * 2 ^ suc k / 2 ≡ q * 2 ^ k
    halves q k = omega (arith, double_two_power q k)

pub xor_swap :
    (a b c d : ℕ) → bit_xor (bit_xor a b) (bit_xor c d) ≡ bit_xor (bit_xor a c) (bit_xor b d)
xor_swap a b c d =
    xor_assoc a b (bit_xor c d)
    ∙ ap (bit_xor a)
        (sym (xor_assoc b c d) ∙ ap (λ t. bit_xor t d) (xor_comm b c) ∙ xor_assoc c b d)
    ∙ sym (xor_assoc a c (bit_xor b d))

pub xor_zero : (a : ℕ) → bit_xor a 0 ≡ a
xor_zero a = xor_comm a 0 ∙ zero_xor a

-- `^` is undone by `^` with the same word.
pub xor_cancel : (a b : ℕ) → bit_xor (bit_xor a b) b ≡ a
xor_cancel a b = xor_assoc a b b ∙ ap (bit_xor a) (xor_self b) ∙ xor_zero a

xor_multiples : (k p q : ℕ) → bit_xor (p * 2 ^ k) (q * 2 ^ k) ≡ bit_xor p q * 2 ^ k
xor_multiples zero p q = ap₂ bit_xor (mul-one p) (mul-one q) ∙ sym (mul-one (bit_xor p q))
xor_multiples (suc k) p q = omega (
  arith,
  bit_xor_digit (p * 2 ^ suc k) (q * 2 ^ suc k),
  double_two_power p k,
  double_two_power q k,
  double_two_power (bit_xor p q) k,
  ap₂ bit_xor (halve p k) (halve q k),
  xor_multiples k p q,
)
  where
    halve : (q k : ℕ) → q * 2 ^ suc k / 2 ≡ q * 2 ^ k
    halve q k = omega (arith, double_two_power q k)

fields_mod : (k m r : ℕ) → r < 2 ^ k → (m * 2 ^ k + r) % 2 ^ k ≡ r
fields_mod k m r h = grind arith

-- The low part of a word.
pub xor-low : (k a b : ℕ) → bit_xor a b % 2 ^ k ≡ bit_xor (a % 2 ^ k) (b % 2 ^ k)
xor-low k a b =
    ap (λ (t : ℕ). t % 2 ^ k)
      (ap₂ bit_xor (split a) (split b)
        ∙ xor_swap (a / 2 ^ k * 2 ^ k) (a % 2 ^ k) (b / 2 ^ k * 2 ^ k) (b % 2 ^ k)
        ∙ ap (λ (t : ℕ). bit_xor t (bit_xor (a % 2 ^ k) (b % 2 ^ k)))
            (xor_multiples k (a / 2 ^ k) (b / 2 ^ k))
        ∙ xor_fields k (bit_xor (a / 2 ^ k) (b / 2 ^ k)) (bit_xor (a % 2 ^ k) (b % 2 ^ k)) low)
    ∙ fields_mod k (bit_xor (a / 2 ^ k) (b / 2 ^ k)) (bit_xor (a % 2 ^ k) (b % 2 ^ k)) low
  where
    below : (c : ℕ) → c % 2 ^ k < 2 ^ k
    below c = mod-lt c (one-le-pow k 2 (omega arith))

    split : (c : ℕ) → c ≡ bit_xor (c / 2 ^ k * 2 ^ k) (c % 2 ^ k)
    split c = sym (
        xor_fields k (c / 2 ^ k) (c % 2 ^ k) (below c)
        ∙ ap (λ (t : ℕ). t + c % 2 ^ k) (mul_comm (c / 2 ^ k) (2 ^ k))
        ∙ div-add-mod c (2 ^ k))

    low : bit_xor (a % 2 ^ k) (b % 2 ^ k) < 2 ^ k
    low = xor-lt k (a % 2 ^ k) (b % 2 ^ k) (below a) (below b)

-- `^` with all ones is the complement.
pub xor_ones : (k a : ℕ) → a < 2 ^ k → bit_xor a (2 ^ k - 1) ≡ 2 ^ k - 1 - a
xor_ones zero a h = let e : a ≡ 0 = omega arith in rw e refl
xor_ones (suc k) a h = omega (
  arith,
  bit_xor_digit a (2 ^ suc k - 1),
  pow-suc 2 k,
  one-le-pow k 2 (omega arith),
  ap (bit_xor (a / 2)) (half_ones k),
  xor_ones k (a / 2) (omega (arith, pow-suc 2 k)),
)
  where
    half_ones : (k : ℕ) → (2 ^ suc k - 1) / 2 ≡ 2 ^ k - 1
    half_ones k = omega (arith, pow-suc 2 k, one-le-pow k 2 (omega arith))
