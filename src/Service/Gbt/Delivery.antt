-- ===== src/Service/Gbt/Delivery.antt =====
-- Both ends of a block transfer together. The line between them keeps what is sent, in order.
use openspodes.Prelude.{
  ℕ, zero, suc, ◌+◌, ◌*◌, ◌^◌, ◌≤◌, ◌<◌, ◌≡◌, refl, ap, sym, ◌∙◌, List, [], ◌∷◌, ◌++◌, append-nil,
  append_assoc, length, replicate, ltb, leb→le, leb, arith, length-take, length-replicate,
  if◌then◌else◌, u16, bit_and, some, inl, inr, length-append, Bool-cases,
}
use native.Mathlib.Decide.{dec_lt}
use openspodes.Err.{Call, ok, err, timeout, nomem}
use openspodes.Codec.Len.{min_octets_u32}
use openspodes.Codec.Len.Format.{len_octets, length-big_endian}
use openspodes.Service.Gbt.{Gbt, max_octet_len, gbt_window_mask}
use openspodes.Service.Gbt.Block.{payload, gbt_octets, received, length-payload, same_payload}
use openspodes.Service.Gbt.Transfer.{
  Line, Scratch, Job, Sending, block_from, advance, chunk_len, send_turn, send_loop, sending_starts,
  gbt_transport_send, gbt_recv_block, wait_for_peer, gbt_send_block,
}
use openspodes.Service.Gbt.Transfer.Pieces.{
  IsJob, InStep, IsPiece, block_from-IsPiece, block_from-IsGbt, advance-InStep, advance_moves,
  last_iff,
}
use openspodes.Service.Gbt.Transfer.Wire.{send_block_lem, block_in_lem, received-IsPiece}
use openspodes.Service.Gbt.Transfer.Ends.{InStep-starts}
use openspodes.Service.Gbt.Receive.{Receiving, receiving_starts, recv_loop, gbt_transport_recv}
use openspodes.Service.Gbt.Receive.Safety.{
  Holds, Holds-starts, taken, took, finished, went_on, quiet_turn,
}

-- The octets on their way.
abbrev pub Fifo : Type 0
Fifo = List (List ℕ)

abbrev pub take_first : ℕ → ℕ → Call Fifo (List ℕ)
take_first size timeout_ms [] = err timeout []
take_first size timeout_ms (x ∷ q) = if ltb size (length x) then err nomem q else ok x q

abbrev pub fifo : Line Fifo
fifo = record {
  send_apdu = λ x q. ok tt (q ++ (x ∷ []));
  recv_apdu = take_first;
  stack = λ q. replicate max_octet_len 0;
}

-- The blocks that are still to come.
abbrev pub blocks : Job → ℕ → Sending → Fifo
blocks job zero s = []
blocks job (suc n) s =
    let rest = blocks job n (advance job s) in
    if ltb s.offset (length job.apdu) then gbt_octets (block_from job s) ∷ rest else []

-- What the transfer needs of the arrays: nine octets of header and the octets of a block.
pub record Roomy (scratch : Scratch) (job : Job) : Type 0 where
  pub tx_room : 9 + job.block_payload_max ≤ length scratch.tx_scratch
  pub rx_room : 9 + job.block_payload_max ≤ scratch.rx_scratch_size
  pub narrow : length scratch.tx_scratch < 2 ^ 32

pub len_octets_few : (n : ℕ) → n < 2 ^ 16 → length (len_octets n) ≤ 3
unfolding len_octets min_octets_u32
len_octets_few n h = ground (arith, length-big_endian (min_octets_u32 n) n)

pub block_from-len :
    (job : Job)
    → IsJob job
    → (s : Sending) → length (gbt_octets (block_from job s)) ≤ 9 + job.block_payload_max
unfolding block_from
block_from-len job j s =
    let n = chunk_len job s.offset in
    omega (
      arith,
      length-append (len_octets n) (payload (block_from job s)),
      length-take n (block_from job s).block_data,
      len_octets_few n (omega (arith, j.little_room)),
    )

module _ (scratch : Scratch) (job : Job) (j : IsJob job) (roomy : Roomy scratch job)
    (unconfirmed : bit_and job.window gbt_window_mask ≡ 0) where
  -- A turn of the sender puts the next block on the line.
  turn_lem :
      (s : Sending) (q : Fifo)
      → InStep job s
      → s.offset < length job.apdu
      → send_turn fifo scratch job (wait_for_peer fifo scratch job) s q
        ≡ ok (advance job s) (q ++ (gbt_octets (block_from job s) ∷ []))
  unfolding send_turn
  turn_lem s q v togo =
      let g = block_from job s in
      let e : gbt_send_block fifo scratch g q ≡ ok tt (q ++ (gbt_octets g ∷ [])) =
        send_block_lem fifo scratch g q (block_from-IsGbt job j s v togo)
          (omega (arith, block_from-len job j s, roomy.tx_room)) roomy.narrow in
      ground (arith, e, unconfirmed)

  -- The sender puts all that are still to come behind what is on the line.
  sent_blocks :
      (n : ℕ) (s : Sending) (q : Fifo)
      → InStep job s
      → length job.apdu ≤ s.offset + n
      → send_loop fifo scratch job (wait_for_peer fifo scratch job) n s q
        ≡ some (ok tt (q ++ blocks job n s))
  unfolding send_loop
  sent_blocks zero s q v enough = rw (append-nil q) (ground (arith, enough))
  sent_blocks (suc n) s q v enough = elim (dec_lt s.offset (length job.apdu)) [
    | yes togo ↦
        let q' = q ++ (gbt_octets (block_from job s) ∷ []) in
        let e =
          sent_blocks n (advance job s) q' (advance-InStep job j s v togo)
            (omega (arith, advance_moves job j s v togo)) in
        let t = turn_lem s q v togo in
        let e' : send_loop fifo scratch job (wait_for_peer fifo scratch job) n (advance job s) q'
            ≡ some (ok tt (q ++ (gbt_octets (block_from job s) ∷ blocks job n (advance job s)))) =
          e
          ∙ ap (λ x. some (ok tt x))
              (append_assoc q (gbt_octets (block_from job s) ∷ [])
                (blocks job n (advance job s))) in
        ground (arith, t, e')
    | no over ↦ ground (arith, append-nil q)
  ]

  arrived : Sending → Gbt
  arrived s = received (replicate max_octet_len 0) (block_from job s)

  -- The first block on the line is received.
  got_block :
      (s : Sending) (q : Fifo)
      → InStep job s
      → s.offset < length job.apdu
      → gbt_recv_block fifo scratch (gbt_octets (block_from job s) ∷ q) ≡ ok (arrived s) q
  unfolding gbt_recv_block arrived
  got_block s q v togo =
      let e =
        block_in_lem fifo (block_from job s) q (block_from-IsGbt job j s v togo)
          (omega (arith, block_from-len job j s, j.little_room)) in
      ground (arith, e, block_from-len job j s, roomy.rx_room)

  arrived_fields :
      (s : Sending) → ((arrived s).block_number ≡ s.block_number) × ((arrived s).window ≡ 0)
  unfolding arrived block_from
  arrived_fields s = (refl, unconfirmed)

  arrived_last :
      (s : Sending)
      → InStep job s
      → s.offset < length job.apdu
      → (arrived s).last_block ≡ leb (length job.apdu) (advance job s).offset
  unfolding arrived
  arrived_last s v togo = last_iff job j s v togo

  length-arrived :
      (s : Sending)
      → InStep job s
      → s.offset < length job.apdu
      → length (payload (arrived s)) ≡ (arrived s).block_data_len
  unfolding arrived
  length-arrived s v togo =
      let w = block_from-IsGbt job j s v togo in
      ap length (
        same_payload (block_from job s) (replicate max_octet_len 0) w
          (length-replicate {A = ℕ} max_octet_len 0))
      ∙ length-payload (block_from job s) w

  arrived-IsPiece :
      (s : Sending)
      → InStep job s
      → s.offset < length job.apdu
      → IsPiece job.apdu job.block_payload_max (arrived s)
  unfolding arrived
  arrived-IsPiece s v togo =
      received-IsPiece job.apdu job.block_payload_max (block_from job s) (replicate max_octet_len 0)
        (block_from-IsGbt job j s v togo) (length-replicate {A = ℕ} max_octet_len 0)
        (block_from-IsPiece job j s v togo)

  -- What is held and what is in the block that is expected fits.
  fits :
      (s : Sending) (r : Receiving)
      → InStep job s
      → s.offset < length job.apdu
      → Holds job.apdu job.block_payload_max r
      → (arrived s).block_number ≡ r.expected_block
      → length r.acc + (arrived s).block_data_len ≤ length job.apdu
  fits s r v togo h same =
      let g = arrived s in
      let e =
        took job.apdu job.block_payload_max j.few_octets j.some_room r g h
          (arrived-IsPiece s v togo) same in
      omega (
        arith,
        ap length e,
        length-append r.acc (payload g),
        length-take (r.expected_block * job.block_payload_max) job.apdu,
        length-arrived s v togo,
      )

  over : (n : ℕ) (s : Sending) → length job.apdu ≤ s.offset → blocks job n s ≡ []
  over zero s h = refl
  over (suc n) s h = ground (arith, h)

  -- The receiver takes all that are still to come, and then has the APDU.
  got_blocks :
      (apdu_size : ℕ)
      → length job.apdu ≤ apdu_size
      → apdu_size < 2 ^ 32
      → (n : ℕ) (s : Sending) (r : Receiving) → InStep job s
      → s.offset < length job.apdu
      → length job.apdu ≤ s.offset + n
      → Holds job.apdu job.block_payload_max r
      → r.expected_block ≡ s.block_number
      → r.peer_window ≡ 0
      → recv_loop fifo scratch apdu_size n (gbt_recv_block fifo scratch) r (blocks job n s)
        ≡ some (ok job.apdu [])
  unfolding recv_loop
  got_blocks apdu_size big narrow zero s r v togo enough h same no_peer = absurd (omega arith)
  got_blocks apdu_size big narrow (suc n) s r v togo enough h same no_peer =
      let q = blocks job n (advance job s) in
      let g = arrived s in
      let number : g.block_number ≡ r.expected_block = (arrived_fields s).0 ∙ sym same in
      let e = got_block s q v togo in
      let t =
        quiet_turn fifo scratch apdu_size g r q number (arrived_fields s).1 no_peer
          (omega (arith, fits s r v togo h number)) narrow in
      let p = arrived-IsPiece s v togo in
      let last = arrived_last s v togo in
      elim (Bool-cases g.last_block) [
        | inl l ↦
            let whole =
              finished job.apdu job.block_payload_max j.few_octets j.some_room r g h p number l in
            let none_left : blocks job n (advance job s) ≡ [] =
              over n (advance job s)
                (leb→le (length job.apdu) (advance job s).offset (sym last ∙ l)) in
            ground (arith, e, t, l, whole, none_left)
        | inr l ↦
            let h' =
              went_on job.apdu job.block_payload_max j.few_octets j.some_room r g h p number l in
            let v' = advance-InStep job j s v togo in
            let e' =
              got_blocks apdu_size big narrow n (advance job s) (taken r g) v'
                (ground (arith, last, l)) (omega (arith, advance_moves job j s v togo)) h'
                (ap (λ (x : ℕ). u16 (x + 1)) same)
                (ground (arith, (arrived_fields s).1, no_peer)) in
            ground (arith, e, t, l, e')
      ]

-- An unconfirmed transfer (the window is 0 in its six bits) over a line that keeps what is sent, in
-- order: `osp_gbt_transport_send` puts blocks on the line and succeeds, and
-- `osp_gbt_transport_recv` takes all of them and returns the APDU. The arrays have nine octets more
-- than a block's, and the receiver's holds the APDU.
pub gbt_transport-delivers :
    (sender receiver : Scratch) (job : Job) (apdu_size : ℕ)
    → IsJob job
    → bit_and job.window gbt_window_mask ≡ 0
    → Roomy sender job
    → Roomy receiver job
    → length job.apdu ≤ apdu_size
    → apdu_size < 2 ^ 32
    → (q : Fifo) × (gbt_transport_send fifo sender job (length job.apdu) [] ≡ some (ok tt q))
      × (gbt_transport_recv fifo receiver apdu_size [] (length job.apdu) q ≡ some (ok job.apdu []))
unfolding gbt_transport_send gbt_transport_recv
gbt_transport-delivers sender receiver job apdu_size j unconfirmed tx rx big narrow =
    let n = length job.apdu in
    let e =
      sent_blocks sender job j tx unconfirmed n sending_starts [] (InStep-starts job)
        (omega arith) in
    (
      blocks job n sending_starts,
      ground (arith, e, j.some_octets, j.few_octets, j.some_room, j.little_room),
      got_blocks receiver job j rx unconfirmed apdu_size big narrow n sending_starts
          receiving_starts (InStep-starts job) (omega (arith, j.some_octets)) (omega arith)
          (Holds-starts job.apdu job.block_payload_max j.some_octets) refl refl,
    )
