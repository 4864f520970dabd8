-- ===== src/Prelude/Table.antt =====
-- Facts about every value below a small bound, by evaluation of a table.
use Prim.Native.Nat.{ℕ, zero, suc, ◌<◌}
use mathlib.Core.Path.{◌≡◌}
use mathlib.Core.Bool.{Bool, true, ◌&&◌}
use native.Mathlib.Omega.{arith}
use openspodes.Prelude.Tests.{◌==◌, ==_iff}

unfoldable pub holds_below : ℕ → (ℕ → Bool) → Bool
holds_below zero p = true
holds_below (suc n) p = p n && holds_below n p

pub holds_below_sound : (n : ℕ) (p : ℕ → Bool) (x : ℕ) → holds_below n p ≡ true → x < n → p x ≡ true
unfolding holds_below
holds_below_sound zero p x h lt = absurd (omega arith)
holds_below_sound (suc n) p x h lt = ground (arith, holds_below_sound n p x)

-- Two functions that agree on the table agree at each value below the bound.
pub agree_below :
    (n : ℕ) (f g : ℕ → ℕ) (x : ℕ) → holds_below n (λ i. f i == g i) ≡ true → x < n → f x ≡ g x
agree_below n f g x h lt = (==_iff (f x) (g x)).0 (holds_below_sound n _ x h lt)
