-- ===== src/Service/Gbt/Receive/Safety.antt =====
-- Whatever the transport loses, repeats or reorders, what is received is the APDU or nothing.
use openspodes.Prelude.{
  ℕ, zero, suc, ◌+◌, ◌*◌, ◌-◌, ◌^◌, ◌≤◌, ◌<◌, ◌≡◌, ap, ap₂, sym, ◌∙◌, subst, true, false, List, [],
  ◌++◌, length, take, drop, ltb, leb, leb→le, arith, if◌then◌else◌, u16, some, inl, inr, ◌⊎◌,
}
use openspodes.Prelude.Slices.{take-add, take-all}
use native.Mathlib.Decide.{dec_lt}
use openspodes.Err.{ok, Outcome-cases}
use openspodes.Service.Gbt.{Gbt, max_octet_len}
use openspodes.Service.Gbt.Block.{payload}
use openspodes.Service.Gbt.Transfer.{Line, Scratch, gbt_recv_block}
use openspodes.Service.Gbt.Transfer.Pieces.{IsPiece}
use openspodes.Service.Gbt.Transfer.Wire.{BringsPieces, recv_block-IsPiece}
use openspodes.Service.Gbt.Receive.{
  Receiving, Turn, more, complete, receiving_starts, on_gap, on_duplicate, on_expected, on_block,
  recv_loop, gbt_transport_recv,
}

-- What the receiver holds is the APDU up to the block it expects, which the APDU has.
pub record Holds (apdu : List ℕ) (piece_len : ℕ) (r : Receiving) : Type 0 where
  pub from_one : 1 ≤ r.expected_block
  pub prefix : r.acc ≡ take ((r.expected_block - 1) * piece_len) apdu
  pub inside : (r.expected_block - 1) * piece_len < length apdu

-- What a turn may leave.
abbrev pub Sound : List ℕ → ℕ → Turn → Type 0
Sound apdu piece_len (more r) = Holds apdu piece_len r
Sound apdu piece_len (complete xs) = xs ≡ apdu

-- The state behind a block that was taken.
abbrev pub taken : Receiving → Gbt → Receiving
taken r g = record {
  acc = r.acc ++ payload g;
  expected_block = u16 (r.expected_block + 1);
  peer_window = if ltb 0 g.window then g.window else r.peer_window;
}

pub Holds-starts :
    (apdu : List ℕ) (piece_len : ℕ) → 0 < length apdu → Holds apdu piece_len receiving_starts
Holds-starts apdu piece_len h = record {
  from_one = omega arith;
  prefix = ap (λ (n : ℕ). take n apdu) {x = 0} (omega arith);
  inside = omega arith;
}

pub le-mul : (k p : ℕ) → 0 < p → k ≤ k * p
le-mul zero p h = omega arith
le-mul (suc k) p h = omega (arith, le-mul k p h)

leb-lt : (a b : ℕ) → leb a b ≡ false → b < a
leb-lt a b h = ground arith

module _ (apdu : List ℕ) (piece_len : ℕ) (few : length apdu ≤ 4096) (room : 0 < piece_len) where
  -- The piece that was expected comes behind what is held.
  pub took :
      (r : Receiving) (g : Gbt)
      → Holds apdu piece_len r
      → IsPiece apdu piece_len g
      → g.block_number ≡ r.expected_block
      → r.acc ++ payload g ≡ take (r.expected_block * piece_len) apdu
  took r g h p e =
      let i : p.n ≡ r.expected_block - 1 = omega (arith, p.number) in
      ap₂ ◌++◌ h.prefix (p.octets ∙ ap (λ (n : ℕ). take piece_len (drop (n * piece_len) apdu)) i)
      ∙ take-add ((r.expected_block - 1) * piece_len) piece_len apdu
      ∙ ap (λ (n : ℕ). take n apdu) {y = (r.expected_block - 1 + 1) * piece_len} (omega arith)
      ∙ ap (λ (n : ℕ). take (n * piece_len) apdu) (omega (arith, h.from_one))

  module _ (r : Receiving) (g : Gbt) (h : Holds apdu piece_len r) (p : IsPiece apdu piece_len g)
      (e : g.block_number ≡ r.expected_block) where
    at_end : g.last_block ≡ leb (length apdu) (r.expected_block * piece_len)
    at_end =
        p.last
        ∙ ap (λ (n : ℕ). leb (length apdu) (n * piece_len)) {y = r.expected_block}
            (omega (arith, p.number))

    -- The last piece completes the APDU.
    pub finished : g.last_block ≡ true → r.acc ++ payload g ≡ apdu
    finished l =
        took r g h p e
        ∙ take-all (r.expected_block * piece_len) apdu
            (leb→le (length apdu) (r.expected_block * piece_len) (sym at_end ∙ l))

    -- Any other leaves the next to be expected.
    pub went_on : g.last_block ≡ false → Holds apdu piece_len (taken r g)
    went_on l =
        let next : u16 (r.expected_block + 1) ≡ r.expected_block + 1 =
          omega (arith, le-mul (r.expected_block - 1) piece_len room, h.inside) in
        let same : u16 (r.expected_block + 1) - 1 ≡ r.expected_block = omega (arith, next) in
        record {
          from_one = omega (arith, next);
          prefix = took r g h p e ∙ ap (λ (n : ℕ). take (n * piece_len) apdu) (sym same);
          inside =
              subst (λ (n : ℕ). n * piece_len < length apdu) (sym same)
                (leb-lt (length apdu) (r.expected_block * piece_len) (sym at_end ∙ l));
        }

module _ {W : Type 0} (line : Line W) (scratch : Scratch) (apdu_size : ℕ) where
  -- A block that is neither early nor late is taken, or the transfer fails.
  on_expected-cases :
      (g : Gbt) (r : Receiving) (w w' : W) (t : Turn)
      → on_expected line scratch apdu_size g r w ≡ ok t w'
      → (g.last_block ≡ true) × (t ≡ complete (r.acc ++ payload g))
        ⊎ (g.last_block ≡ false) × (t ≡ more (taken r g))
  unfolding on_expected
  on_expected-cases g r w w' t e = ground (arith, e)

  on_gap-stays :
      (g : Gbt) (r : Receiving) (w w' : W) (t : Turn)
      → on_gap line scratch apdu_size g r w ≡ ok t w'
      → t ≡ more r
  unfolding on_gap
  on_gap-stays g r w w' t e = ground (arith, e)

  on_duplicate-stays :
      (g : Gbt) (r : Receiving) (w w' : W) (t : Turn)
      → on_duplicate line scratch apdu_size g r w ≡ ok t w'
      → t ≡ more r
  unfolding on_duplicate
  on_duplicate-stays g r w w' t e = ground (arith, e)

  -- The block expected, from a peer that asks for no acknowledgement and with room for it.
  pub quiet_turn :
      (g : Gbt) (r : Receiving) (w : W)
      → g.block_number ≡ r.expected_block
      → g.window ≡ 0
      → r.peer_window ≡ 0
      → length r.acc + g.block_data_len ≤ apdu_size
      → apdu_size < 2 ^ 32
      → on_block line scratch apdu_size g r w
        ≡ ok (if g.last_block then complete (r.acc ++ payload g) else more (taken r g)) w
  unfolding on_block on_expected
  quiet_turn g r w same no_window no_peer fits narrow = ground arith

  on_block-Sound :
      (apdu : List ℕ) (piece_len : ℕ)
      → length apdu ≤ 4096
      → 0 < piece_len
      → (g : Gbt) (r : Receiving) (w w' : W) (t : Turn) → Holds apdu piece_len r
      → IsPiece apdu piece_len g
      → on_block line scratch apdu_size g r w ≡ ok t w'
      → Sound apdu piece_len t
  unfolding on_block
  on_block-Sound apdu piece_len few room g r w w' t h p e =
      elim (dec_lt r.expected_block g.block_number) [
        | yes early ↦ rw (on_gap-stays g r w w' t (ground (arith, e))) h
        | no k ↦ elim (dec_lt g.block_number r.expected_block) [
          | yes late ↦ rw (on_duplicate-stays g r w w' t (ground (arith, e))) h
          | no k' ↦ elim (on_expected-cases g r w w' t (ground (arith, e))) [
            | inl (is_last, q) ↦
                let same : g.block_number ≡ r.expected_block = omega arith in
                rw q (finished apdu piece_len few room r g h p same is_last)
            | inr (not_last, q) ↦
                let same : g.block_number ≡ r.expected_block = omega arith in
                rw q (went_on apdu piece_len few room r g h p same not_last)
          ]
        ]
      ]

  -- A turn that went well leaves the loop to go on, or ends it with the APDU.
  one_turn :
      (apdu xs : List ℕ) (piece_len fuel : ℕ) (g : Gbt) (r : Receiving) (w w1 w2 w' : W) (t : Turn)
      → gbt_recv_block line scratch w ≡ ok g w1
      → on_block line scratch apdu_size g r w1 ≡ ok t w2
      → Sound apdu piece_len t
      → recv_loop line scratch apdu_size (suc fuel) (gbt_recv_block line scratch) r w
        ≡ some (ok xs w')
      → (xs ≡ apdu)
        ⊎ ((r' : Receiving) × Holds apdu piece_len r'
            × (recv_loop line scratch apdu_size fuel (gbt_recv_block line scratch) r' w2
                ≡ some (ok xs w')))
  unfolding recv_loop
  one_turn apdu xs piece_len fuel g r w w1 w2 w' (more r') f f' sound e =
      inr (r', sound, ground (arith, e, f, f'))
  one_turn apdu xs piece_len fuel g r w w1 w2 w' (complete ys) f f' sound e =
      let same : xs ≡ ys = ground (arith, e, f, f') in inl (same ∙ sound)

  recv_loop-Safe :
      (apdu : List ℕ) (piece_len : ℕ)
      → length apdu ≤ 4096
      → 0 < piece_len
      → ((w : W) → length (line.stack w) ≡ max_octet_len)
      → BringsPieces line scratch apdu piece_len
      → (fuel : ℕ) (r : Receiving) (w w' : W) (xs : List ℕ) → Holds apdu piece_len r
      → recv_loop line scratch apdu_size fuel (gbt_recv_block line scratch) r w ≡ some (ok xs w')
      → xs ≡ apdu
  unfolding recv_loop
  recv_loop-Safe apdu piece_len few room stacks brings zero r w w' xs h e = ground arith
  recv_loop-Safe apdu piece_len few room stacks brings (suc fuel) r w w' xs h e =
      elim (Outcome-cases (gbt_recv_block line scratch w)) [
        | inl (g, w1, f) ↦ elim (Outcome-cases (on_block line scratch apdu_size g r w1)) [
          | inl (t, w2, f') ↦
              let sound =
                on_block-Sound apdu piece_len few room g r w1 w2 t h
                  (recv_block-IsPiece line scratch apdu piece_len stacks brings w w1 g f) f' in
              elim (one_turn apdu xs piece_len fuel g r w w1 w2 w' t f f' sound e) [
                | inl same ↦ same
                | inr (r', h', e') ↦
                    recv_loop-Safe apdu piece_len few room stacks brings fuel r' w2 w' xs h' e'
              ]
          | inr (x, w2, f') ↦ ground (arith, e, f, f')
        ]
        | inr (x, w1, f) ↦ ground (arith, e, f)
      ]

-- Let every APDU the transport brings be a block with a piece of `apdu`, in whatever order and
-- however often, some of them never. If the transfer then ends without an error, what
-- `osp_gbt_transport_recv` returns is `apdu`.
pub gbt_transport_recv-Safe :
    {W : Type 0} (line : Line W) (scratch : Scratch) (apdu_size : ℕ) (apdu : List ℕ) (piece_len : ℕ)
    → 0 < length apdu
    → length apdu ≤ 4096
    → 0 < piece_len
    → ((w : W) → length (line.stack w) ≡ max_octet_len)
    → BringsPieces line scratch apdu piece_len
    → (fuel : ℕ) (w w' : W) (xs : List ℕ)
    → gbt_transport_recv line scratch apdu_size [] fuel w ≡ some (ok xs w')
    → xs ≡ apdu
unfolding gbt_transport_recv
gbt_transport_recv-Safe line scratch apdu_size apdu piece_len some_octets few room stacks brings
      fuel w w' xs e =
    recv_loop-Safe line scratch apdu_size apdu piece_len few room stacks brings fuel
      receiving_starts w w' xs (Holds-starts apdu piece_len some_octets) e
