-- ===== src/Buf/View.antt =====
-- What the operations of `osp_buf_t` do, seen from outside: the octets written so far and those
-- still to be read, with no positions.
use openspodes.Prelude.{
  ℕ, suc, ◌+◌, ◌-◌, ◌≤◌, ◌<◌, ◌≡◌, refl, sym, ap, ◌∙◌, List, [], ◌∷◌, ◌++◌, length, get_or, set,
  take, drop, length-set, length-append, append-nil, append_assoc, arith, u32,
}
use openspodes.Prelude.Slices.{
  blit, take-set, drop-append, drop-drop, get_or-drop, get_or-take, take-drop-take,
  length-drop-take, length-blit, take-blit,
}
use openspodes.Err.{Call, ok}
use openspodes.Buf.{Buf, IsBuf, buf_unread, buf_free, next, put, put_all, octet, octets_at, skip}

-- The octets written, and those of them that were not read yet.
abbrev pub content : Buf → List ℕ
content b = take b.wr b.buf

abbrev pub pending : Buf → List ℕ
pending b = drop b.rd (content b)

pub buf_unread-pending : (b : Buf) → IsBuf b → buf_unread b ≡ length (pending b)
unfolding buf_unread
buf_unread-pending b v = omega (arith, length-drop-take b.buf b.rd b.wr (omega arith))

pub buf_free-sub : (b : Buf) → IsBuf b → buf_free b ≡ b.size - b.wr
unfolding buf_free
buf_free-sub b v = omega arith

-- `b'` is `b` with the octets `bs` written behind.
pub record Appends (b : Buf) (bs : List ℕ) (b' : Buf) : Type 0 where
  pub valid : IsBuf b'
  pub content_eq : content b' ≡ content b ++ bs
  pub same_rd : b'.rd ≡ b.rd
  pub same_size : b'.size ≡ b.size
  pub moved : b'.wr ≡ b.wr + length bs

-- The call writes `bs` and nothing else.
abbrev pub Writes : Call Buf (Unit {0}) → Buf → List ℕ → Type 0
Writes m b bs = (b' : Buf) × (m b ≡ ok tt b') × Appends b bs b'

-- `b'` is `b` with its first pending octets read, and `rest` left.
pub record Consumes (b : Buf) (rest : List ℕ) (b' : Buf) : Type 0 where
  pub valid : IsBuf b'
  pub left : pending b' ≡ rest
  pub same_content : content b' ≡ content b
  pub same_size : b'.size ≡ b.size
  pub same_wr : b'.wr ≡ b.wr

-- The call returns `a` and leaves `rest` to be read.
abbrev pub Reads : {A : Type 0} → Call Buf A → Buf → A → List ℕ → Type 0
Reads m b a rest = (b' : Buf) × (m b ≡ ok a b') × Consumes b rest b'

pub Appends-nil : (b : Buf) → IsBuf b → Appends b [] b
Appends-nil b v = record {
  valid = v;
  content_eq = sym (append-nil _);
  same_rd = refl;
  same_size = refl;
  moved = omega arith;
}

pub Consumes-refl : (b : Buf) (rest : List ℕ) → IsBuf b → pending b ≡ rest → Consumes b rest b
Consumes-refl b rest v p = record {
  valid = v;
  left = p;
  same_content = refl;
  same_size = refl;
  same_wr = refl;
}

pub Appends-trans :
    {b c d : Buf} (xs ys : List ℕ) → Appends b xs c → Appends c ys d → Appends b (xs ++ ys) d
Appends-trans {b} xs ys p q = record {
  valid = q.valid;
  content_eq = q.content_eq ∙ ap (λ t. t ++ ys) p.content_eq ∙ append_assoc (content b) xs ys;
  same_rd = q.same_rd ∙ p.same_rd;
  same_size = q.same_size ∙ p.same_size;
  moved = omega (arith, length-append xs ys, p.moved, q.moved);
}

pub put_lem : (x : ℕ) (b : Buf) → IsBuf b → b.wr < b.size → Writes (put x) b (x ∷ [])
unfolding put
put_lem x b v h = (
  record b { buf = set b.buf b.wr x; wr = u32 (b.wr + 1) },
  refl,
  record {
    valid = omega (arith, length-set b.buf b.wr x);
    content_eq =
        let e : u32 (b.wr + 1) ≡ suc b.wr = omega arith in
        rw e (take-set b.buf b.wr x (omega arith));
    same_rd = refl;
    same_size = refl;
    moved = omega arith;
  },
)

pub put_all_lem :
    (xs : List ℕ) (b : Buf) → IsBuf b → b.wr + length xs ≤ b.size → Writes (put_all xs) b xs
unfolding put_all
put_all_lem xs b v h = (
  record b { buf = blit b.buf b.wr xs; wr = u32 (b.wr + length xs) },
  refl,
  record {
    valid = omega (arith, length-blit xs b.buf b.wr);
    content_eq =
        let e : u32 (b.wr + length xs) ≡ b.wr + length xs = omega arith in
        rw e (take-blit xs b.buf b.wr (omega arith));
    same_rd = refl;
    same_size = refl;
    moved = omega arith;
  },
)

-- What was written is pending behind what was pending before.
pub pending-Appends :
    {b b' : Buf} (bs : List ℕ) → IsBuf b → Appends b bs b' → pending b' ≡ pending b ++ bs
pending-Appends {b} {b'} bs v a =
    rw (a.content_eq, a.same_rd)
      (drop-append (content b) bs b.rd (omega (arith, length-drop-take b.buf 0 b.wr (omega arith))))

module _ (b : Buf) (v : IsBuf b) where
  length-pending : length (pending b) ≡ b.wr - b.rd
  length-pending = length-drop-take b.buf b.rd b.wr (omega arith)

  pub skip_lem : (n : ℕ) → n ≤ length (pending b) → Reads (skip n) b tt (drop n (pending b))
  unfolding skip
  skip_lem n h =
      let e : u32 (b.rd + n) ≡ b.rd + n = omega (arith, length-pending) in
      (
        record b { rd = u32 (b.rd + n) },
        refl,
        record {
          valid = omega (arith, length-pending);
          left = rw e (sym (drop-drop (content b) n b.rd));
          same_content = refl;
          same_size = refl;
          same_wr = refl;
        },
      )

  pub octet-pending : (i : ℕ) → i < length (pending b) → octet b i ≡ get_or (pending b) i 0
  unfolding octet
  octet-pending i h = sym (
      get_or-drop (content b) i b.rd 0
      ∙ get_or-take b.buf (b.rd + i) b.wr 0 (omega (arith, length-pending)))

  pub octets_at-pending : (n : ℕ) → n ≤ length (pending b) → octets_at b n ≡ take n (pending b)
  unfolding octets_at
  octets_at-pending n h = sym (take-drop-take b.buf n b.rd b.wr (omega (arith, length-pending)))

  pub next_lem : (x : ℕ) (rest : List ℕ) → pending b ≡ x ∷ rest → Reads next b x rest
  unfolding next octet
  next_lem x rest h =
      let room : 1 ≤ length (pending b) = omega (arith, ap length h) in
      let e : u32 (b.rd + 1) ≡ b.rd + 1 = omega (arith, length-pending) in
      let first : get_or b.buf b.rd 0 ≡ x =
        ap (λ (t : ℕ). get_or b.buf t 0) (omega arith)
        ∙ octet-pending 0 room
        ∙ ap (λ l. get_or l 0 0) h in
      (
        record b { rd = u32 (b.rd + 1) },
        ap (λ (t : ℕ). ok t (record b { rd = u32 (b.rd + 1) })) first,
        record {
          valid = omega (arith, length-pending);
          left = rw e (sym (drop-drop (content b) 1 b.rd) ∙ ap (drop 1) h);
          same_content = refl;
          same_size = refl;
          same_wr = refl;
        },
      )
