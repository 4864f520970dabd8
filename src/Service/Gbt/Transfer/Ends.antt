-- ===== src/Service/Gbt/Transfer/Ends.antt =====
-- The sender ends on every transport, and what an acknowledgement can do to it.
use openspodes.Prelude.{
  ℕ, zero, suc, ◌+◌, ◌*◌, ◌-◌, ◌^◌, ◌≤◌, ◌<◌, ◌≡◌, refl, ap, sym, ◌∙◌, Bool, true, false, length,
  arith, if◌then◌else◌, Bool-cases, u16, min, some, ◌&&◌, ◌==◌, not, leb, inl, inr,
}
use native.Mathlib.Decide.{dec_lt}
use openspodes.Err.{Outcome, ok, err, invalid, pure, Outcome-cases, step_ok}
use openspodes.Service.Gbt.{Gbt}
use openspodes.Service.Gbt.Transfer.{
  Line, Scratch, Job, Sending, gbt_wait_for_ack, gbt_recv_block, gbt_send_block, block_from,
  after_ack, advance, must_wait, send_turn, send_loop, wait_for_peer, sending_starts, bad_job,
  gbt_transport_send,
}
use openspodes.Service.Gbt.Transfer.Pieces.{IsJob, InStep, advance-InStep, advance_moves}

module _ {W : Type 0} (line : Line W) (scratch : Scratch) (job : Job) where
  -- An acknowledgement that is accepted covers the block asked for.
  acked :
      (k : ℕ) (w w' : W) (ack : Gbt)
      → gbt_wait_for_ack line scratch k w ≡ ok ack w'
      → k ≤ ack.block_number_ack
  unfolding gbt_wait_for_ack
  acked k w w' ack e = ground (arith, e)

  covered :
      (k : ℕ) (s : Sending)
      → s.block_number ≤ k + 1
      → after_ack job k s ≡ record s { blocks_in_window = 0 }
  unfolding after_ack
  covered k s h = ground arith

  -- So the loop goes on where it is: it never goes back.
  stays :
      (s s' : Sending) (w w' : W)
      → 1 ≤ s.block_number
      → s.block_number < 2 ^ 16
      → wait_for_peer line scratch job s w ≡ ok s' w'
      → s' ≡ record s { blocks_in_window = 0 }
  unfolding wait_for_peer
  stays s s' w w' low high e =
      elim (Outcome-cases (gbt_wait_for_ack line scratch (u16 (s.block_number + 2 ^ 16 - 1)) w)) [
        | inl (ack, w1, f) ↦
            let a = acked (u16 (s.block_number + 2 ^ 16 - 1)) w w1 ack f in
            let c = covered ack.block_number_ack s (omega (arith, a)) in ground (arith, e, f, c)
        | inr (x, w1, f) ↦ ground (arith, e, f)
      ]

  -- The same, after a turn that waits only if the window is full.
  paused :
      (k : Bool) (s s' : Sending) (w w' : W)
      → 1 ≤ s.block_number
      → s.block_number < 2 ^ 16
      → (if k then wait_for_peer line scratch job s else pure s) w ≡ ok s' w'
      → (s'.offset ≡ s.offset) × (s'.block_number ≡ s.block_number)
  paused true s s' w w' low high e =
      let q = stays s s' w w' low high e in (ap (λ t. t.offset) q, ap (λ t. t.block_number) q)
  paused false s s' w w' low high e = ground arith

  -- One turn sends one block and moves behind it.
  turn-InStep :
      IsJob job
      → (s s' : Sending) (w w' : W) → InStep job s
      → s.offset < length job.apdu
      → send_turn line scratch job (wait_for_peer line scratch job) s w ≡ ok s' w'
      → InStep job s' × (s'.offset ≡ (advance job s).offset)
  unfolding send_turn
  turn-InStep j s s' w w' v more e =
      let v' = advance-InStep job j s v more in
      let next = advance job s in
      elim (Outcome-cases (gbt_send_block line scratch (block_from job s) w)) [
        | inl (u, w1, f) ↦
            let (same_offset, same_number) =
              paused (must_wait job (block_from job s).last_block next) next s' w1 w' v'.numbered
                (omega arith)
                (sym (step_ok (gbt_send_block line scratch (block_from job s)) _ w f) ∙ e) in
            (
              record {
                numbered = omega (arith, v'.numbered, same_number);
                counted = omega (arith, v'.counted, same_number, same_offset);
                before =
                    same_offset
                    ∙ v'.before
                    ∙ ap (λ (t : ℕ). min ((t - 1) * job.block_payload_max) (length job.apdu))
                        (sym same_number);
              },
              same_offset,
            )
        | inr (x, w1, f) ↦ ground (arith, e, f)
      ]

  loop_ends :
      IsJob job
      → (fuel : ℕ) (s : Sending) (w : W) → InStep job s
      → length job.apdu ≤ s.offset + fuel
      → (r : Outcome W (Unit {0})) × (send_loop line scratch job
            (wait_for_peer line scratch job)
            fuel
            s
            w
          ≡ some r)
  unfolding send_loop
  loop_ends j zero s w v enough = (ok tt w, ground (arith, enough))
  loop_ends j (suc fuel) s w v enough = elim (dec_lt s.offset (length job.apdu)) [
    | yes more ↦
        elim (Outcome-cases (send_turn line scratch job (wait_for_peer line scratch job) s w)) [
          | inl (s', w', f) ↦
              let (v', moved) = turn-InStep j s s' w w' v more f in
              let (r, e) =
                loop_ends j fuel s' w' v' (omega (arith, moved, advance_moves job j s v more)) in
              (r, ground (arith, f, e))
          | inr (x, w', f) ↦ (err x w', ground (arith, f))
        ]
    | no over ↦ (ok tt w, ground arith)
  ]

pub IsJob-accepted : (job : Job) → bad_job job ≡ false → IsJob job
IsJob-accepted job h = ground (arith, h)

pub InStep-starts : (job : Job) → InStep job sending_starts
InStep-starts job = record { numbered = omega arith; counted = omega arith; before = omega arith }

-- `osp_gbt_transport_send` ends on every transport, whatever arrives and whatever is asked of it:
-- its loop makes no more turns than the APDU has octets.
pub gbt_transport_send-ends :
    {W : Type 0} (line : Line W) (scratch : Scratch) (job : Job) (w : W)
    → (r : Outcome W (Unit {0})) × (gbt_transport_send line scratch job (length job.apdu) w
        ≡ some r)
unfolding gbt_transport_send
gbt_transport_send-ends line scratch job w = elim (Bool-cases (bad_job job)) [
  | inl bad ↦ (err invalid w, rw bad refl)
  | inr good ↦
      let (r, e) =
        loop_ends line scratch job (IsJob-accepted job good) (length job.apdu) sending_starts w
          (InStep-starts job) (omega arith) in
      (r, rw good e)
]

-- What `gbt_transport_send` does with the block `g` that it reads when its window is full: if that is
-- an acknowledgement (without data, the last, and not streaming) of the block sent last or a later
-- one, only the count of the window starts again, and the sender goes back to no earlier block; an
-- acknowledgement of less, and any other block, ends the transfer with INVALID.
pub wait_for_peer-stays :
    {W : Type 0} (line : Line W) (scratch : Scratch) (job : Job) (s : Sending) (g : Gbt) (w w' : W)
    → 1 ≤ s.block_number
    → s.block_number < 2 ^ 16
    → gbt_recv_block line scratch w ≡ ok g w'
    → wait_for_peer line scratch job s w ≡ (
        if (g.block_data_len == 0 && g.last_block && not g.streaming)
          && leb (s.block_number - 1) g.block_number_ack
        then ok (record s { blocks_in_window = 0 }) w'
        else err invalid w')
unfolding wait_for_peer gbt_wait_for_ack after_ack
wait_for_peer-stays line scratch job s g w w' low high e =
    let asked : u16 (s.block_number + 2 ^ 16 - 1) ≡ s.block_number - 1 = omega arith in
    ground (arith, e, asked)
