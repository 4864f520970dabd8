-- ===== src/Service/Gbt/Truncated.antt =====
-- src/service/gbt.c: the loops over the octets of a block do not look at what the calls in them
-- return, so too few octets or too little room goes unnoticed.
use openspodes.Prelude.{
  ℕ, zero, suc, ◌+◌, ◌≤◌, ◌≡◌, refl, ap, List, [], ◌∷◌, ◌++◌, length, take, arith,
}
use openspodes.Prelude.Slices.{blit, take-nil}
use openspodes.Err.{ok, attempt}
use openspodes.Buf.{Buf, IsBuf}
use openspodes.Buf.View.{
  Reads, Writes, Appends-nil, Consumes-refl, pending, buf_unread-pending, buf_free-sub,
}
use openspodes.Buf.Compose.{Reads-then, Writes-then}
use openspodes.Codec.Axdr.{axdr_read_u8, axdr_write_u8}
use openspodes.Codec.Wire.Parts.{Emits-u8}
use openspodes.Service.Gbt.{Gbt, write_data, read_data, read_element, gbt_encode, gbt_decode}
use openspodes.Service.Gbt.Block.{
  Emits-attempt, Takes-element, IsGbt, header, payload, read_block_header, write_header,
}

no_octet :
    (old : List ℕ) (i : ℕ) (b : Buf) → IsBuf b → pending b ≡ [] → read_element old i b ≡ ok old b
unfolding read_element axdr_read_u8
no_octet old i b v p = ground (arith, buf_unread-pending b v, ap length p)

no_room : (x : ℕ) (b : Buf) → IsBuf b → b.wr ≡ b.size → attempt (axdr_write_u8 x) b ≡ ok tt b
unfolding axdr_write_u8
no_room x b v full = ground (arith, buf_free-sub b v)

-- The loop over `n` octets of which only `xs` are there: the rest of the array stays.
pub read_data_short :
    (n i : ℕ) (xs old : List ℕ) (b : Buf)
    → IsBuf b
    → length xs ≤ n
    → pending b ≡ xs
    → Reads (read_data n i old) b (blit old i xs) []
unfolding read_data
read_data_short zero i [] old b v h p = (b, refl, Consumes-refl b [] v p)
read_data_short zero i (x ∷ xs) old b v h p = absurd (omega arith)
read_data_short (suc n) i [] old b v h p =
    Reads-then (read_element old i) (read_data n (suc i)) b old old [] []
      (b, no_octet old i b v p, Consumes-refl b [] v p)
      λ c q. read_data_short n (suc i) [] old c q.valid (omega arith) q.left
read_data_short (suc n) i (x ∷ xs) old b v h p =
    Reads-then (read_element old i) (read_data n (suc i)) b (blit old i (x ∷ []))
      (blit old i (x ∷ xs)) xs [] (Takes-element old i x b xs v p)
      λ c q. read_data_short n (suc i) xs (blit old i (x ∷ [])) c q.valid (omega arith) q.left

-- The loop over the octets `xs` with room for `n` fewer or more of them.
pub write_data_short :
    (n : ℕ) (xs : List ℕ) (b : Buf)
    → IsBuf b
    → b.wr + n ≡ b.size
    → Writes (write_data xs) b (take n xs)
unfolding write_data
write_data_short n [] b v room = rw (take-nil n) (b, refl, Appends-nil b v)
write_data_short zero (x ∷ xs) b v room =
    Writes-then (attempt (axdr_write_u8 x)) (write_data xs) b [] []
      (b, no_room x b v (omega arith), Appends-nil b v)
      λ c a. write_data_short zero xs c a.valid (omega (arith, a.moved, a.same_size))
write_data_short (suc n) (x ∷ xs) b v room =
    Writes-then (attempt (axdr_write_u8 x)) (write_data xs) b (x ∷ []) (take n xs)
      (Emits-attempt (x ∷ []) (Emits-u8 x) b v (omega arith))
      λ c a. write_data_short n xs c a.valid (omega (arith, a.moved, a.same_size))

-- `osp_gbt_decode` succeeds on a block that ends before its octets do: whatever part `xs` of the
-- announced octets is there, it returns the announced length, and behind `xs` the caller's array
-- has what it held before.
pub gbt_decode_truncated :
    (g : Gbt) (xs old : List ℕ) (b : Buf)
    → IsGbt g
    → length xs ≤ g.block_data_len
    → IsBuf b
    → pending b ≡ header g ++ xs
    → Reads (gbt_decode old) b (record g { block_data = blit old 0 xs }) []
gbt_decode_truncated g xs old b v short vb p =
    read_block_header g old (blit old 0 xs) xs [] b v vb p
      λ c vc q. read_data_short g.block_data_len 0 xs old c vc short q

-- `osp_gbt_encode` succeeds whenever the header fits: where there is room for `n` octets more, it
-- writes the header with the block's whole length and of the block's octets the first `n` only.
pub gbt_encode_truncated :
    (g : Gbt) (n : ℕ) (b : Buf)
    → IsGbt g
    → IsBuf b
    → b.wr + length (header g) + n ≡ b.size
    → Writes (gbt_encode g) b (header g ++ take n (payload g))
gbt_encode_truncated g n b v vb room =
    write_header g (take n (payload g)) b v vb (omega arith)
      λ c vc moved same_size. write_data_short n (payload g) c vc (omega (arith, moved, same_size))
