-- ===== src/Err.antt =====
-- src/openspodes.h, `osp_err_t`: every call returns a code, 0 for success, and what it wrote
-- through its pointers before it failed stays written. So a call is a function of the state it
-- changes, and the state comes back beside the code in both cases.
use openspodes.Prelude.{◌≡◌, refl, Bool, true, false, ◌⊎◌, inl, inr, arith}

pub data Err : Type 0 where
  nomem io invalid unsupported timeout security not_found disconnected : Err

-- `ok a s` is OSP_OK with the values of the out-parameters, `err e s` an error code.
pub data Outcome {ℓ} (S A : Type ℓ) : Type ℓ where
  ok : A → S → Outcome S A
  err : Err → S → Outcome S A

abbrev pub Call {ℓ} : Type ℓ → Type ℓ → Type ℓ
Call S A = S → Outcome S A

-- `if (r != OSP_OK) return r;` between two calls.
infixl 5 ◌>>=◌ ◌>>◌
abbrev pub ◌>>=◌ {ℓ} : {S A B : Type ℓ} → Call S A → (A → Call S B) → Call S B
◌>>=◌ m f s = elim (m s) [ ok a s' ↦ f a s' | err e s' ↦ err e s' ]

abbrev pub ◌>>◌ {ℓ} : {S A B : Type ℓ} → Call S A → Call S B → Call S B
m >> k = m >>= λ _. k

abbrev pub pure {ℓ} : {S A : Type ℓ} → A → Call S A
pure a s = ok a s

abbrev pub fail {ℓ} : {S A : Type ℓ} → Err → Call S A
fail e s = err e s

-- `if (test) return e;`
abbrev pub fail_if {ℓ} : {S : Type ℓ} → Bool → Err → Call S (Unit {ℓ})
fail_if true e s = err e s
fail_if false e s = ok tt s

-- A call whose code nobody looks at: what it did to the state stays.
abbrev pub attempt {ℓ} : {S A : Type ℓ} → Call S A → Call S (Unit {ℓ})
attempt m s = elim (m s) [ ok a s' ↦ ok tt s' | err e s' ↦ ok tt s' ]

-- `!= OSP_OK` turned into `return -1`, which every caller turns into OSP_ERR_INVALID.
abbrev pub code {ℓ} : {S A : Type ℓ} → Call S A → Call S A
code m s = elim (m s) [ ok a s' ↦ ok a s' | err e s' ↦ err invalid s' ]

abbrev pub state {ℓ} : {S A : Type ℓ} → Outcome S A → S
state (ok a s) = s
state (err e s) = s

-- A call that succeeds may be followed.
pub step_ok {ℓ} :
    {S A B : Type ℓ} (m : Call S A) (f : A → Call S B) (s : S) {a : A} {s' : S}
    → m s ≡ ok a s'
    → (m >>= f) s ≡ f a s'
step_ok m f s e = rw (e, ◌>>=◌)

-- A call that fails ends the sequence.
pub step_err {ℓ} :
    {S A B : Type ℓ} (m : Call S A) (f : A → Call S B) (s : S) {e : Err} {s' : S}
    → m s ≡ err e s'
    → (m >>= f) s ≡ err e s'
step_err m f s h = rw (h, ◌>>=◌)

pub ok-injective {ℓ} : {S A : Type ℓ} {a b : A} {s t : S} → ok a s ≡ ok b t → (a ≡ b) × (s ≡ t)
ok-injective e = ground (arith, e)

pub Outcome-cases {ℓ} :
    {S A : Type ℓ} (r : Outcome S A)
    → ((a : A) × (s : S) × (r ≡ ok a s)) ⊎ ((e : Err) × (s : S) × (r ≡ err e s))
Outcome-cases (ok a s) = inl (a, s, refl)
Outcome-cases (err e s) = inr (e, s, refl)

-- A call whose only effect is its out-parameter.
pub data Result {ℓ} (A : Type ℓ) : Type ℓ where
  done : A → Result A
  refused : Err → Result A
