-- ===== src/Codec/Wire/Guarded.antt =====
-- Calls that test the room once and then move a run of octets.
use openspodes.Prelude.{
  ℕ, ◌<◌, ◌≡◌, ap, sym, ◌∙◌, List, ◌++◌, length, length-append, get_or, ltb, arith,
}
use openspodes.Err.{Call, Err, ok, invalid, ◌>>◌, pure, fail_if}
use openspodes.Buf.{Buf, IsBuf, buf_unread, buf_free, skip, put_all, octet}
use openspodes.Buf.View.{pending, put_all_lem, buf_unread-pending, buf_free-sub}
use openspodes.Buf.Compose.{skip_over}
use openspodes.Codec.Axdr.RoundTrip.{octet_at}
use openspodes.Codec.Wire.{Emits, Takes}

-- `if (osp_buf_free(buf) < n) return e;` and then the octets.
abbrev pub put_if_room : ℕ → Err → List ℕ → Call Buf (Unit {0})
put_if_room n e xs b = (do fail_if (ltb (buf_free b) n) e; put_all xs) b

pub Emits-if_room : (xs : List ℕ) (n : ℕ) (e : Err) → length xs ≡ n → Emits (put_if_room n e xs) xs
Emits-if_room xs n e len b v room =
    let (c, f, a) = put_all_lem xs b v room in (c, ground (arith, f, buf_free-sub b v), a)

-- `if (osp_buf_unread(buf) < n) return OSP_ERR_INVALID;`, and then a value made of the octets.
abbrev pub take_if_there : {A : Type 0} → ℕ → (Buf → A) → Call Buf A
take_if_there n f b = (do fail_if (ltb (buf_unread b) n) invalid; skip n; pure (f b)) b

pub Takes-if_there :
    {A : Type 0} (xs : List ℕ) (n : ℕ) (f : Buf → A) {a : A}
    → length xs ≡ n
    → ((b : Buf) (rest : List ℕ) → IsBuf b → pending b ≡ xs ++ rest → f b ≡ a)
    → Takes (take_if_there n f) xs a
Takes-if_there xs n f len made b rest v p =
    let (c, e, q) = skip_over xs rest b v p in
    let e' : skip n b ≡ ok tt c = ap (λ (k : ℕ). skip k b) (sym len) ∙ e in
    (
      c,
      ground (
        arith,
        e',
        made b rest v p,
        buf_unread-pending b v,
        ap length p,
        length-append xs rest,
        len,
      ),
      q,
    )

-- The octet at an index of what is pending.
pub octet_of :
    (b : Buf)
    → IsBuf b
    → (i : ℕ) (l : List ℕ) → pending b ≡ l
    → i < length l
    → octet b i ≡ get_or l i 0
octet_of = octet_at
