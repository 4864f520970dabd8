-- ===== src/Service/Gbt/Transfer/Wire.antt =====
-- A block on the wire: what is sent for it, and what becomes of it when it arrives.
use openspodes.Prelude.{
  ℕ, ◌+◌, ◌^◌, ◌≤◌, ◌<◌, ◌≡◌, refl, ap, sym, ◌∙◌, subst, List, [], ◌++◌, append-nil, length, arith,
  inl, inr,
}
use openspodes.Prelude.Slices.{take-length}
use openspodes.Err.{Outcome-cases, ok-injective, ok, step_ok}
use openspodes.Buf.{IsBuf, buf_init}
use openspodes.Buf.View.{content}
use openspodes.Service.Gbt.{Gbt, max_octet_len}
use openspodes.Service.Gbt.Block.{IsGbt, gbt_octets, received, same_payload, Emits-gbt, Takes-gbt}
use openspodes.Service.Gbt.Transfer.{
  Line, Scratch, filled, block_in, gbt_send_block, gbt_recv_block,
}
use openspodes.Service.Gbt.Transfer.Pieces.{IsPiece}

filled-IsBuf : (xs : List ℕ) → length xs < 2 ^ 32 → IsBuf (filled xs)
filled-IsBuf xs h = record {
  ordered = omega arith;
  within = omega arith;
  backed = refl;
  narrow = h;
}

init-IsBuf : (mem : List ℕ) → length mem < 2 ^ 32 → IsBuf (buf_init mem (length mem))
unfolding buf_init
init-IsBuf mem h = record { ordered = omega arith; within = omega arith; backed = refl; narrow = h }

init-room :
    (mem xs : List ℕ)
    → length xs ≤ length mem
    → (buf_init mem (length mem)).wr + length xs ≤ (buf_init mem (length mem)).size
unfolding buf_init
init-room mem xs h = omega arith

init-content : (mem xs : List ℕ) → content (buf_init mem (length mem)) ++ xs ≡ xs
unfolding buf_init
init-content mem xs = refl

-- What is sent for a block that fits the array.
pub send_block_lem :
    {W : Type 0} (line : Line W) (scratch : Scratch) (g : Gbt) (w : W)
    → IsGbt g
    → length (gbt_octets g) ≤ length scratch.tx_scratch
    → length scratch.tx_scratch < 2 ^ 32
    → gbt_send_block line scratch g w ≡ line.send_apdu (gbt_octets g) w
unfolding gbt_send_block
send_block_lem line scratch g w v room narrow =
    let b = buf_init scratch.tx_scratch (length scratch.tx_scratch) in
    let (c, e, a) =
      Emits-gbt g v b (init-IsBuf scratch.tx_scratch narrow)
        (init-room scratch.tx_scratch (gbt_octets g) room) in
    let sent : content c ≡ gbt_octets g =
      a.content_eq ∙ init-content scratch.tx_scratch (gbt_octets g) in
    rw (e, gbt_send_block) (ap (λ t. line.send_apdu t w) sent)

-- What is made of its octets.
pub block_in_lem :
    {W : Type 0} (line : Line W) (g : Gbt) (w : W)
    → IsGbt g
    → length (gbt_octets g) < 2 ^ 32
    → block_in line (gbt_octets g) w ≡ ok (received (line.stack w) g) w
unfolding block_in
block_in_lem line g w v narrow =
    let (c, e, q) =
      Takes-gbt g (line.stack w) v (filled (gbt_octets g)) [] (filled-IsBuf (gbt_octets g) narrow)
        (take-length (gbt_octets g) ∙ sym (append-nil (gbt_octets g))) in
    rw e (ground arith)

-- The array it is read into does not matter to what the block holds.
pub received-IsPiece :
    (apdu : List ℕ) (piece_len : ℕ) (g : Gbt) (old : List ℕ)
    → IsGbt g
    → length old ≡ max_octet_len
    → IsPiece apdu piece_len g
    → IsPiece apdu piece_len (received old g)
received-IsPiece apdu piece_len g old v room p = record {
  n = p.n;
  number = p.number;
  inside = p.inside;
  octets = same_payload g old v room ∙ p.octets;
  last = p.last;
}

-- Every APDU the transport brings is a block with a piece of the APDU `apdu`.
abbrev pub BringsPieces : {W : Type 0} → Line W → Scratch → List ℕ → ℕ → Type 0
BringsPieces {W} line scratch apdu piece_len =
    (w w' : W) (x : List ℕ)
    → line.recv_apdu scratch.rx_scratch_size scratch.timeout_ms w ≡ ok x w'
    → (g : Gbt) × IsGbt g
      × IsPiece apdu piece_len g
      × (gbt_octets g ≡ x)
      × (length (gbt_octets g) < 2 ^ 32)

pub recv_block-IsPiece :
    {W : Type 0} (line : Line W) (scratch : Scratch) (apdu : List ℕ) (piece_len : ℕ)
    → ((w : W) → length (line.stack w) ≡ max_octet_len)
    → BringsPieces line scratch apdu piece_len
    → (w w' : W) (g : Gbt) → gbt_recv_block line scratch w ≡ ok g w'
    → IsPiece apdu piece_len g
unfolding gbt_recv_block
recv_block-IsPiece line scratch apdu piece_len stacks brings w w' g e =
    elim (Outcome-cases (line.recv_apdu scratch.rx_scratch_size scratch.timeout_ms w)) [
      | inl (x, w1, f) ↦
          let (h, v, p, same, narrow) = brings w w1 x f in
          let got : ok (received (line.stack w1) h) w1 ≡ ok g w' =
            sym (ap (λ t. block_in line t w1) (sym same) ∙ block_in_lem line h w1 v narrow)
            ∙ sym (
                step_ok (line.recv_apdu scratch.rx_scratch_size scratch.timeout_ms) (block_in line)
                  w f)
            ∙ e in
          subst (IsPiece apdu piece_len) (ok-injective got).0
            (received-IsPiece apdu piece_len h (line.stack w1) v (stacks w1) p)
      | inr (x, w1, f) ↦ ground (arith, e, f)
    ]
