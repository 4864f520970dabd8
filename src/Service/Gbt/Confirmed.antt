-- ===== src/Service/Gbt/Confirmed.antt =====
-- A confirmed transfer: the receiver acknowledges each block, the sender waits once for a window.
use openspodes.Prelude.{
  ℕ, zero, suc, ◌+◌, ◌-◌, ◌*◌, ◌^◌, ◌≤◌, ◌<◌, ◌≡◌, refl, ◌∙◌, true, false, List, [], ◌∷◌, length,
  replicate, arith, bit_and, some,
}
use native.Mathlib.Nat.{mul-le-mul_right}
use openspodes.Prelude.Bits.{and_mask}
use openspodes.Err.{ok, err, invalid}
use openspodes.Codec.Len.Format.{len_octets}
use openspodes.Service.Gbt.{Gbt, gbt_window_mask, max_octet_len}
use openspodes.Service.Gbt.Block.{IsGbt, gbt_octets, received}
use openspodes.Service.Gbt.Transfer.{
  Line, Scratch, Job, Sending, gbt_send_ack, gbt_send_block, gbt_recv_block, wait_for_peer,
  block_from, advance, send_turn, send_loop, sending_starts, bad_job, gbt_transport_send,
}
use openspodes.Service.Gbt.Transfer.Pieces.{
  IsJob, InStep, block_from-IsGbt, advance-InStep, last_iff,
}
use openspodes.Service.Gbt.Transfer.Wire.{send_block_lem, block_in_lem}
use openspodes.Service.Gbt.Transfer.Ends.{InStep-starts, wait_for_peer-stays}
use openspodes.Service.Gbt.Receive.{Receiving, more, receiving_starts, on_block, on_expected}
use openspodes.Service.Gbt.Receive.Safety.{taken, le-mul}
use openspodes.Service.Gbt.Delivery.{fifo, block_from-len}

-- The acknowledgement of block `n`.
abbrev pub ack : ℕ → ℕ → Gbt
ack window n = record {
  last_block = true;
  streaming = false;
  window = bit_and window gbt_window_mask;
  block_number = 1;
  block_number_ack = n;
  block_data = replicate max_octet_len 0;
  block_data_len = 0;
}

ack-IsGbt : (window n : ℕ) → n < 2 ^ 16 → IsGbt (ack window n)
ack-IsGbt window n h = record {
  window_fits = omega (arith, and_mask 6 window);
  number_fits = omega arith;
  ack_fits = h;
  data_fits = omega arith;
  data_there = omega arith;
}

ack_len : (window n : ℕ) → length (gbt_octets (ack window n)) ≡ 7
unfolding len_octets
ack_len window n = refl

module _ (scratch : Scratch) (tx_room : 9 ≤ length scratch.tx_scratch)
    (narrow : length scratch.tx_scratch < 2 ^ 32) where
  -- A block with a window, the one expected and not the last, is acknowledged at once.
  acknowledged :
      (apdu_size : ℕ) (g : Gbt) (r : Receiving)
      → g.block_number ≡ r.expected_block
      → r.expected_block < 2 ^ 16
      → 0 < g.window
      → g.last_block ≡ false
      → length r.acc + g.block_data_len ≤ apdu_size
      → apdu_size < 2 ^ 32
      → on_block fifo scratch apdu_size g r []
        ≡ ok (more (taken r g)) (gbt_octets (ack g.window r.expected_block) ∷ [])
  unfolding on_block on_expected gbt_send_ack
  acknowledged apdu_size g r same few window not_last fits size =
      let e =
        send_block_lem fifo scratch (ack g.window r.expected_block) []
          (ack-IsGbt g.window r.expected_block few)
          (omega (arith, ack_len g.window r.expected_block, tx_room)) narrow in
      ground (arith, e)

-- A sender whose window holds two blocks or more, and whose first window does not reach the end of the
-- APDU, over a transport that takes what is sent and brings the acknowledgement of block 1.
module _ {W : Type 0} (line : Line W) (scratch : Scratch) (job : Job) (window : ℕ) (j : IsJob job)
    (several : 2 ≤ bit_and job.window gbt_window_mask)
    (longer : bit_and job.window gbt_window_mask * job.block_payload_max < length job.apdu)
    (tx_room : 9 + job.block_payload_max ≤ length scratch.tx_scratch)
    (narrow : length scratch.tx_scratch < 2 ^ 32)
    (takes : (d : List ℕ) (v : W) → (v' : W) × (line.send_apdu d v ≡ ok tt v'))
    (brings : (v : W)
      → (v' : W) × (line.recv_apdu scratch.rx_scratch_size scratch.timeout_ms v
          ≡ ok (gbt_octets (ack window 1)) v')) where
  block_sent :
      (s : Sending) (w : W)
      → InStep job s
      → s.offset < length job.apdu
      → (w' : W) × (gbt_send_block line scratch (block_from job s) w ≡ ok tt w')
  block_sent s w v togo =
      let g = block_from job s in
      let (w', e) = takes (gbt_octets g) w in
      (
        w',
        send_block_lem line scratch g w (block_from-IsGbt job j s v togo)
              (omega (arith, block_from-len job j s, tx_room)) narrow
            ∙ e,
      )

  ack_read :
      (w : W)
      → (w' : W) × (gbt_recv_block line scratch w ≡ ok (received (line.stack w') (ack window 1)) w')
  unfolding gbt_recv_block
  ack_read w =
      let (w', e) = brings w in
      let e' =
        block_in_lem line (ack window 1) w' (ack-IsGbt window 1 (omega arith))
          (omega (arith, ack_len window 1)) in
      (w', ground (arith, e, e'))

  -- Two blocks or more are sent, and only the first is acknowledged.
  refused :
      (s : Sending) (w : W)
      → 3 ≤ s.block_number
      → s.block_number < 2 ^ 16
      → (w' : W) × (wait_for_peer line scratch job s w ≡ err invalid w')
  refused s w behind few =
      let (w', e) = ack_read w in
      (
        w',
        wait_for_peer-stays line scratch job s (received (line.stack w') (ack window 1)) w w'
              (omega (arith, behind)) few e
            ∙ ground arith,
      )

  -- Within the window the APDU does not end.
  not_over :
      (s : Sending)
      → InStep job s
      → s.block_number ≤ bit_and job.window gbt_window_mask + 1
      → s.offset < length job.apdu
  not_over s v inside =
      let blocks : s.block_number - 1 ≤ bit_and job.window gbt_window_mask = omega arith in
      omega (arith, v.before, mul-le-mul_right job.block_payload_max blocks, longer)

  module _ (s : Sending) (v : InStep job s) (numbered : s.block_number ≡ s.blocks_in_window + 1)
      (left : s.blocks_in_window < bit_and job.window gbt_window_mask) where
    togo : s.offset < length job.apdu
    togo = not_over s v (omega (arith, numbered, left))

    -- Both counts go on by one.
    counted :
        ((advance job s).block_number ≡ s.block_number + 1)
        × ((advance job s).blocks_in_window ≡ s.blocks_in_window + 1)
    counted =
        let small : bit_and job.window gbt_window_mask < 64 =
          omega (arith, and_mask 6 job.window) in
        (omega (arith, numbered, left, small), omega (arith, left, small))

    inner : (block_from job s).last_block ≡ false
    inner =
        let more_left =
          not_over (advance job s) (advance-InStep job j s v togo)
            (omega (arith, counted.0, numbered, left)) in
        last_iff job j s v togo ∙ ground (arith, more_left)

    -- A block before the last of the window is sent, and no answer is waited for.
    turn_on :
        (w : W)
        → s.blocks_in_window + 1 < bit_and job.window gbt_window_mask
        → (w' : W) × (send_turn line scratch job (wait_for_peer line scratch job) s w
            ≡ ok (advance job s) w')
    unfolding send_turn
    turn_on w on =
        let (w', e) = block_sent s w v togo in (w', ground (arith, e, inner, counted.1, on))

    -- The last of the window is sent, and the answer refused.
    turn_full :
        (w : W)
        → s.blocks_in_window + 1 ≡ bit_and job.window gbt_window_mask
        → (w' : W) × (send_turn line scratch job (wait_for_peer line scratch job) s w
            ≡ err invalid w')
    unfolding send_turn
    turn_full w full =
        let small : bit_and job.window gbt_window_mask < 64 =
          omega (arith, and_mask 6 job.window) in
        let (w1, e) = block_sent s w v togo in
        let (w', e') =
          refused (advance job s) w1 (omega (arith, counted.0, numbered, full, several))
            (omega (arith, counted.0, numbered, full, small)) in
        (w', ground (arith, e, e', inner, counted.1, full, several))

  -- With `k` blocks to send before the last of the window.
  fails :
      (k fuel : ℕ) (s : Sending) (w : W)
      → InStep job s
      → s.block_number ≡ s.blocks_in_window + 1
      → s.blocks_in_window + k + 1 ≡ bit_and job.window gbt_window_mask
      → k < fuel
      → (w' : W) × (send_loop line scratch job (wait_for_peer line scratch job) fuel s w
          ≡ some (err invalid w'))
  unfolding send_loop
  fails k zero s w v numbered left enough = absurd (omega arith)
  fails zero (suc fuel) s w v numbered left enough =
      let (w', e) = turn_full s v numbered (omega (arith, left)) w (omega (arith, left)) in
      (w', ground (arith, e, togo s v numbered (omega (arith, left))))
  fails (suc k) (suc fuel) s w v numbered left enough =
      let on : s.blocks_in_window < bit_and job.window gbt_window_mask = omega (arith, left) in
      let (number, count) = counted s v numbered on in
      let (w1, e) = turn_on s v numbered on w (omega (arith, left)) in
      let (w', e') =
        fails k fuel (advance job s) w1 (advance-InStep job j s v (togo s v numbered on))
          (omega (arith, number, count, numbered)) (omega (arith, count, left)) (omega arith) in
      (w', ground (arith, e, e', togo s v numbered on))

accepted : (job : Job) → IsJob job → bad_job job ≡ false
accepted job j = ground (arith, j.some_octets, j.few_octets, j.some_room, j.little_room)

-- A confirmed transfer with a window of two blocks or more that does not reach the end of the APDU.
-- The receiver answers the first block that the sender sends with an acknowledgement of block 1; and
-- over any transport that takes what is sent and, when it is asked, brings that answer,
-- `osp_gbt_transport_send` fails with INVALID.
pub first_ack-refused :
    {W : Type 0} (line : Line W) (sender receiver : Scratch) (job : Job) (old : List ℕ)
    (apdu_size fuel : ℕ) (w : W)
    → IsJob job
    → 2 ≤ bit_and job.window gbt_window_mask
    → bit_and job.window gbt_window_mask * job.block_payload_max < length job.apdu
    → 9 + job.block_payload_max ≤ length sender.tx_scratch
    → length sender.tx_scratch < 2 ^ 32
    → 9 ≤ length receiver.tx_scratch
    → length receiver.tx_scratch < 2 ^ 32
    → length job.apdu ≤ apdu_size
    → apdu_size < 2 ^ 32
    → ((d : List ℕ) (v : W) → (v' : W) × (line.send_apdu d v ≡ ok tt v'))
    → ((v : W)
        → (v' : W) × (line.recv_apdu sender.rx_scratch_size sender.timeout_ms v
            ≡ ok (gbt_octets (ack (bit_and job.window gbt_window_mask) 1)) v'))
    → length job.apdu ≤ fuel
    → (on_block fifo receiver apdu_size
          (received old (block_from job sending_starts))
          receiving_starts
          []
        ≡ ok
            (more (taken receiving_starts (received old (block_from job sending_starts))))
            (gbt_octets (ack (bit_and job.window gbt_window_mask) 1) ∷ []))
      × ((w' : W) × (gbt_transport_send line sender job fuel w ≡ some (err invalid w')))
unfolding gbt_transport_send block_from
first_ack-refused line sender receiver job old apdu_size fuel w j several longer tx narrow rtx
      rnarrow fits size takes brings enough =
    let win = bit_and job.window gbt_window_mask in
    let one_each = le-mul win job.block_payload_max j.some_room in
    let unlast : (block_from job sending_starts).last_block ≡ false =
      inner line sender job win j several longer tx narrow takes brings sending_starts
        (InStep-starts job) (omega arith) (omega (arith, several)) in
    let (w', e) =
      fails line sender job win j several longer tx narrow takes brings (win - 1) fuel
        sending_starts w (InStep-starts job) (omega arith) (omega (arith, several))
        (omega (arith, several, longer, enough, one_each)) in
    (
      acknowledged receiver rtx rnarrow apdu_size (received old (block_from job sending_starts))
          receiving_starts refl (omega arith) (omega (arith, several)) unlast (omega (arith, fits))
          size,
      (w', rw (accepted job j) e),
    )
