-- ===== src/Codec/Wire.antt =====
-- Formats put together from parts. `Emits` is a call that writes certain octets wherever there is
-- room for them, `Takes` one that reads a value from certain octets whatever follows; both hold of a
-- sequence when they hold of its parts. The encoders and decoders of src/service and
-- src/codec/serialize.c are sequences of the calls of src/codec/codec.c.
pub mod Parts
pub mod Guarded
use openspodes.Prelude.{
  ℕ, ◌+◌, ◌≤◌, ◌≡◌, refl, sym, ◌∙◌, ap, Bool, true, false, List, [], ◌∷◌, ◌++◌, length, append-nil,
  append_assoc, length-append, arith, if◌then◌else◌,
}
use openspodes.Err.{Err, Call, Outcome, ok, err, invalid, ◌>>=◌, ◌>>◌, pure, fail_if, code}
use openspodes.Buf.{Buf, IsBuf}
use openspodes.Buf.View.{
  Writes, Reads, Appends, Consumes, Appends-nil, Consumes-refl, pending, content,
}
use openspodes.Buf.Compose.{Writes-then, Reads-then, Writes-Reads}

abbrev pub Emits : Call Buf (Unit {0}) → List ℕ → Type 0
Emits w bs = (b : Buf) → IsBuf b → b.wr + length bs ≤ b.size → Writes w b bs

abbrev pub Takes : {A : Type 0} → Call Buf A → List ℕ → A → Type 0
Takes r bs a = (b : Buf) (rest : List ℕ) → IsBuf b → pending b ≡ bs ++ rest → Reads r b a rest

pub Emits-nothing : Emits (pure tt) []
Emits-nothing b v room = (b, refl, Appends-nil b v)

pub Takes-pure : {A : Type 0} (a : A) → Takes (pure a) [] a
Takes-pure a b rest v p = (b, refl, Consumes-refl b rest v p)

-- A test that passes writes nothing and reads nothing.
pub Emits-test : (k : Bool) (e : Err) → k ≡ false → Emits (fail_if k e) []
Emits-test true e h b v room = absurd (ground arith)
Emits-test false e h b v room = (b, refl, Appends-nil b v)

pub Takes-test : (k : Bool) (e : Err) → k ≡ false → Takes (fail_if k e) [] tt
Takes-test true e h b rest v p = absurd (ground arith)
Takes-test false e h b rest v p = (b, refl, Consumes-refl b rest v p)

pub Emits-then :
    {m k : Call Buf (Unit {0})} (xs ys : List ℕ)
    → Emits m xs
    → Emits k ys
    → Emits (m >> k) (xs ++ ys)
Emits-then {m} {k} xs ys p q b v room =
    Writes-then m k b xs ys (p b v (omega (arith, length-append xs ys)))
      λ c a. q c a.valid (omega (arith, length-append xs ys, a.moved, a.same_size))

pub Takes-then :
    {A B : Type 0} {m : Call Buf A} (k : A → Call Buf B) (xs ys : List ℕ) {a : A} {z : B}
    → Takes m xs a
    → Takes (k a) ys z
    → Takes (m >>= k) (xs ++ ys) z
Takes-then {m} k xs ys {a} {z} p q b rest v e =
    Reads-then m k b a z (ys ++ rest) rest (p b (ys ++ rest) v (e ∙ append_assoc xs ys rest))
      λ c w. q c rest w.valid w.left

-- The same where what follows is read from this buffer only, however far it gets.
pub Reads-next :
    {A B : Type 0} {m : Call Buf A} (k : A → Call Buf B) (xs more : List ℕ) {rest : List ℕ} {a : A}
    {z : B} {b : Buf}
    → Takes m xs a
    → IsBuf b
    → pending b ≡ xs ++ more
    → ((c : Buf) → IsBuf c → pending c ≡ more → Reads (k a) c z rest)
    → Reads (m >>= k) b z rest
Reads-next {m} k xs more {rest} {a} {z} {b} p v e go =
    Reads-then m k b a z more rest (p b more v e) λ c w. go c w.valid w.left

pub Writes-next :
    {m k : Call Buf (Unit {0})} (xs ys : List ℕ) {b : Buf}
    → Emits m xs
    → IsBuf b
    → b.wr + length xs ≤ b.size
    → ((c : Buf) → Appends b xs c → Writes k c ys)
    → Writes (m >> k) b (xs ++ ys)
Writes-next {m} {k} xs ys {b} p v room go = Writes-then m k b xs ys (p b v room) go

-- The value read last is put into the result.
pub Takes-last :
    {A B : Type 0} {m : Call Buf A} (xs : List ℕ) {a : A} (f : A → B)
    → Takes m xs a
    → Takes (m >>= λ x. pure (f x)) xs (f a)
Takes-last {m} xs {a} f p b rest v e =
    Reads-then m (λ x. pure (f x)) b a (f a) rest rest (p b rest v e)
      λ c w. (c, refl, Consumes-refl c rest w.valid w.left)

pub Emits-code : {m : Call Buf (Unit {0})} (xs : List ℕ) → Emits m xs → Emits (code m) xs
Emits-code xs p b v room = let (c, e, a) = p b v room in (c, rw (e, code) refl, a)

pub Takes-code :
    {A : Type 0} {m : Call Buf A} (xs : List ℕ) {a : A} → Takes m xs a → Takes (code m) xs a
Takes-code xs p b rest v e = let (c, e', w) = p b rest v e in (c, rw (e', code) refl, w)

-- What one writes the other reads back, from a buffer with nothing left to read.
abbrev pub RoundTrip : {A : Type 0} → Call Buf (Unit {0}) → Call Buf A → List ℕ → A → Type 0
RoundTrip w r bs a =
    (b : Buf)
    → IsBuf b
    → pending b ≡ []
    → b.wr + length bs ≤ b.size
    → (b' : Buf) × ((w >> r) b ≡ ok a b') × (content b' ≡ content b ++ bs) × (pending b' ≡ [])

pub Emits-Takes :
    {A : Type 0} {w : Call Buf (Unit {0})} {r : Call Buf A} (bs : List ℕ) {a : A}
    → Emits w bs
    → Takes r bs a
    → RoundTrip w r bs a
Emits-Takes {w} {r} bs {a} p q b v none_left room =
    Writes-Reads w r b bs a v none_left (p b v room) λ c v' e. q c [] v' e
