-- ===== src/Service/Gbt/Receive.antt =====
-- src/service/gbt.c, `osp_gbt_transport_recv`: blocks are taken in the order of their numbers. A
-- block that comes early is answered with the number of the last one taken, one that comes again
-- with its own number, and the octets of both are dropped.
pub mod Safety
use openspodes.Prelude.{
  ℕ, zero, suc, ◌+◌, ◌-◌, ◌^◌, Bool, true, false, List, [], ◌∷◌, ◌++◌, length, take, ltb, ◌==◌,
  if◌then◌else◌, u16, u32, Option, none, some,
}
use openspodes.Err.{Call, Outcome, ok, err, invalid, nomem, ◌>>=◌, ◌>>◌, pure, fail_if}
use openspodes.Service.Gbt.{Gbt, gbt_window_mask}
use openspodes.Service.Gbt.Transfer.{Line, Scratch, Run, block_in, gbt_recv_block, gbt_send_ack}

-- The variables of the loop. `acc` is what the caller's array holds so far.
pub record Receiving : Type 0 where
  pub acc : List ℕ
  pub expected_block : ℕ
  pub peer_window : ℕ

abbrev pub receiving_starts : Receiving
receiving_starts = record { acc = []; expected_block = 1; peer_window = 0 }

-- `continue` with these variables, or the whole APDU.
pub data Turn : Type 0 where
  more : Receiving → Turn
  complete : List ℕ → Turn

module _ {W : Type 0} (line : Line W) (scratch : Scratch) (apdu_size : ℕ) where
  -- A block was missed: the window asked for is the gap.
  unfoldable pub on_gap : Gbt → Receiving → Call W Turn
  on_gap g r = do
    let gap = u16 (g.block_number - r.expected_block)
    let win = if ltb gbt_window_mask gap then gbt_window_mask else gap
    let win' = if win == 0 then 1 else win
    gbt_send_ack line scratch win' 1
        (if ltb 0 r.expected_block then u16 (r.expected_block - 1) else 0)
    pure (more r)

  unfoldable pub on_duplicate : Gbt → Receiving → Call W Turn
  on_duplicate g r w =
      let win = if ltb 0 g.window then g.window else r.peer_window in
      if ltb 0 win
      then (gbt_send_ack line scratch win 1 g.block_number >> pure (more r)) w
      else ok (more r) w

  unfoldable pub on_expected : Gbt → Receiving → Call W Turn
  on_expected g r w =
      let peer_window = if ltb 0 g.window then g.window else r.peer_window in
      let acc = r.acc ++ take g.block_data_len g.block_data in
      let next : Receiving = record {
        acc = acc;
        expected_block = u16 (r.expected_block + 1);
        peer_window = peer_window;
      } in
      if ltb apdu_size (u32 (length r.acc + g.block_data_len))
      then err nomem w
      else if g.last_block
      then ok (complete acc) w
      else if ltb 0 peer_window
      then (gbt_send_ack line scratch peer_window 1 r.expected_block >> pure (more next)) w
      else ok (more next) w

  unfoldable pub on_block : Gbt → Receiving → Call W Turn
  on_block g r w =
      if ltb r.expected_block g.block_number
      then on_gap g r w
      else if ltb g.block_number r.expected_block
      then on_duplicate g r w
      else on_expected g r w

  unfoldable pub recv_loop : ℕ → Call W Gbt → Receiving → W → Run W (List ℕ)
  recv_loop zero get r w = none
  recv_loop (suc fuel) get r w = elim ((get >>= λ g. on_block g r) w) [
    | ok turn w' ↦ elim turn [
      | more r' ↦ recv_loop fuel (gbt_recv_block line scratch) r' w'
      | complete apdu ↦ some (ok apdu w')
    ]
    | err e w' ↦ some (err e w')
  ]

  -- `first_block` is an APDU that was read before, empty if there is none.
  unfoldable pub gbt_transport_recv : List ℕ → ℕ → W → Run W (List ℕ)
  gbt_transport_recv first_block fuel w =
      recv_loop fuel
        (if length first_block == 0 then gbt_recv_block line scratch else block_in line first_block)
        receiving_starts w
