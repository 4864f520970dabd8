-- ===== src/Buf/Compose.antt =====
-- How the effects of calls on a buffer add up, and what it means to read back what was written.
use openspodes.Prelude.{
  ℕ, ◌≡◌, sym, ◌∙◌, List, [], ◌∷◌, ◌++◌, append-nil, ap, length, false, ◌==◌, arith, length-append,
  drop,
}
use openspodes.Prelude.Slices.{drop-length-append}
use openspodes.Err.{Call, ok, invalid, fail_if, ◌>>=◌, ◌>>◌, step_ok}
use openspodes.Buf.{Buf, IsBuf, next, skip, buf_unread}
use openspodes.Buf.View.{
  Appends, Consumes, Writes, Reads, skip_lem, next_lem, buf_unread-pending, Appends-trans, content,
  pending, pending-Appends,
}

-- One call after another: the octets written join, and a read goes on where the last one stopped.
pub Writes-then :
    (m k : Call Buf (Unit {0})) (b : Buf) (xs ys : List ℕ)
    → Writes m b xs
    → ((c : Buf) → Appends b xs c → Writes k c ys)
    → Writes (m >> k) b (xs ++ ys)
Writes-then m k b xs ys (c, e, p) then_k =
    let (d, e', q) = then_k c p in (d, step_ok m (λ _. k) b e ∙ e', Appends-trans xs ys p q)

pub Consumes-trans :
    {b c d : Buf} {mid rest : List ℕ} → Consumes b mid c → Consumes c rest d → Consumes b rest d
Consumes-trans p q = record {
  valid = q.valid;
  left = q.left;
  same_content = q.same_content ∙ p.same_content;
  same_size = q.same_size ∙ p.same_size;
  same_wr = q.same_wr ∙ p.same_wr;
}

pub Reads-then :
    {A B : Type 0} (m : Call Buf A) (k : A → Call Buf B) (b : Buf) (a : A) (r : B)
    (mid rest : List ℕ)
    → Reads m b a mid
    → ((c : Buf) → Consumes b mid c → Reads (k a) c r rest)
    → Reads (m >>= k) b r rest
Reads-then m k b a r mid rest (c, e, p) then_k =
    let (d, e', q) = then_k c p in (d, step_ok m k b e ∙ e', Consumes-trans p q)

-- What is written into a buffer with nothing left to read is what is then read.
pub Writes-Reads :
    {A : Type 0} (m : Call Buf (Unit {0})) (k : Call Buf A) (b : Buf) (bs : List ℕ) (a : A)
    → IsBuf b
    → pending b ≡ []
    → Writes m b bs
    → ((c : Buf) → IsBuf c → pending c ≡ bs ++ [] → Reads k c a [])
    → (b' : Buf) × ((m >> k) b ≡ ok a b') × (content b' ≡ content b ++ bs) × (pending b' ≡ [])
Writes-Reads m k b bs a v none_left (c, e, p) read_k =
    let (d, e', q) =
      read_k c p.valid (pending-Appends bs v p ∙ rw none_left (sym (append-nil bs))) in
    (d, step_ok m (λ _. k) b e ∙ e', q.same_content ∙ p.content_eq, q.left)

pub unread-not_zero :
    (b : Buf) (x : ℕ) (rest : List ℕ) → IsBuf b → pending b ≡ x ∷ rest → (buf_unread b == 0) ≡ false
unread-not_zero b x rest v p = ground (arith, buf_unread-pending b v, ap length p)

-- The readers' common opening: refuse an empty buffer, then take one octet.
pub Reads-first :
    {A : Type 0} (k : ℕ → Call Buf A) (b : Buf) (x : ℕ) (a : A) (more rest : List ℕ)
    → IsBuf b
    → pending b ≡ x ∷ more
    → ((c : Buf) → Consumes b more c → Reads (k x) c a rest)
    → Reads (λ s. (fail_if (buf_unread b == 0) invalid >> (next >>= k)) s) b a rest
Reads-first k b x a more rest v p go =
    rw (unread-not_zero b x more v p) (Reads-then next k b x a more rest (next_lem b v x more p) go)

-- A run of octets that is pending can be skipped, whatever follows it.
pub skip_over :
    (xs rest : List ℕ) (b : Buf)
    → IsBuf b
    → pending b ≡ xs ++ rest
    → Reads (skip (length xs)) b tt rest
skip_over xs rest b v p =
    let (c, e, q) = skip_lem b v (length xs) (omega (arith, ap length p, length-append xs rest)) in
    (
      c,
      e,
      record {
        valid = q.valid;
        left = q.left ∙ ap (drop (length xs)) p ∙ drop-length-append xs rest;
        same_content = q.same_content;
        same_size = q.same_size;
        same_wr = q.same_wr;
      },
    )
