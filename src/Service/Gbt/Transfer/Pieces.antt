-- ===== src/Service/Gbt/Transfer/Pieces.antt =====
-- The pieces an APDU is cut into, by what is in a block.
use openspodes.Prelude.{
  ℕ, ◌+◌, ◌*◌, ◌-◌, ◌≤◌, ◌<◌, ◌≡◌, ap, sym, ◌∙◌, min, List, length, take, drop, leb, arith,
  length-take, length-drop, replicate, length-replicate,
}
use openspodes.Prelude.Bits.{and_mask}
use openspodes.Prelude.Slices.{take-blit, take-min, length-blit}
use openspodes.Service.Gbt.{Gbt}
use openspodes.Service.Gbt.Block.{IsGbt, payload}
use openspodes.Service.Gbt.Transfer.{Job, Sending, block_from, chunk_len, advance}

-- Block `n + 1` holds the octets of the APDU from `n * piece_len` on, and is the last if they are.
pub record IsPiece (apdu : List ℕ) (piece_len : ℕ) (g : Gbt) : Type 0 where
  pub n : ℕ
  pub number : g.block_number ≡ n + 1
  pub inside : n * piece_len < length apdu
  pub octets : payload g ≡ take piece_len (drop (n * piece_len) apdu)
  pub last : g.last_block ≡ leb (length apdu) ((n + 1) * piece_len)

-- A job that the senders accept.
pub record IsJob (job : Job) : Type 0 where
  pub some_octets : 0 < length job.apdu
  pub few_octets : length job.apdu ≤ 4096
  pub some_room : 0 < job.block_payload_max
  pub little_room : job.block_payload_max ≤ 256

-- Where the sender is: behind the blocks before the next.
pub record InStep (job : Job) (s : Sending) : Type 0 where
  pub numbered : 1 ≤ s.block_number
  pub counted : s.block_number ≤ s.offset + 1
  pub before : s.offset ≡ min ((s.block_number - 1) * job.block_payload_max) (length job.apdu)

module _ (job : Job) (j : IsJob job) (s : Sending) (v : InStep job s)
    (more : s.offset < length job.apdu) where
  chunk : ℕ
  chunk = chunk_len job s.offset

  -- Where the next block starts, and the one behind it.
  start : s.offset ≡ (s.block_number - 1) * job.block_payload_max
  start = omega (arith, v.before)

  next_start : (s.block_number - 1 + 1) * job.block_payload_max ≡ s.offset + job.block_payload_max
  next_start = omega (arith, start)

  taken : take chunk (drop s.offset job.apdu) ≡ take job.block_payload_max (drop s.offset job.apdu)
  unfolding chunk
  taken =
      ap (λ (t : ℕ). take (min t job.block_payload_max) (drop s.offset job.apdu))
        (sym (length-drop s.offset job.apdu))
      ∙ take-min job.block_payload_max (drop s.offset job.apdu)

  length-taken : length (take chunk (drop s.offset job.apdu)) ≡ chunk
  unfolding chunk
  length-taken =
      omega (arith, length-take chunk (drop s.offset job.apdu), length-drop s.offset job.apdu)

  blank_room : length {A = ℕ} (replicate 256 0) ≡ 256
  blank_room = length-replicate {A = ℕ} 256 0

  block_payload : payload (block_from job s) ≡ take chunk (drop s.offset job.apdu)
  unfolding block_from chunk
  block_payload =
      ap (λ (n : ℕ). take n (block_from job s).block_data) (omega (arith, length-taken))
      ∙ take-blit (take chunk (drop s.offset job.apdu)) (replicate 256 0) 0
          (omega (arith, length-taken, blank_room, j.little_room))

  pub block_from-IsPiece : IsPiece job.apdu job.block_payload_max (block_from job s)
  unfolding block_from chunk
  block_from-IsPiece = record {
    n = s.block_number - 1;
    number = omega (arith, v.numbered);
    inside = omega (arith, start);
    octets =
        block_payload ∙ taken ∙ ap (λ (t : ℕ). take job.block_payload_max (drop t job.apdu)) start;
    last = ground (arith, next_start, j.some_room);
  }

  pub block_from-IsGbt : IsGbt (block_from job s)
  unfolding block_from
  block_from-IsGbt = record {
    window_fits = omega (arith, and_mask 6 job.window);
    number_fits = omega (arith, v.counted, j.few_octets);
    ack_fits = omega arith;
    data_fits = omega (arith, j.little_room);
    data_there = omega (
      arith,
      length-blit (take (chunk_len job s.offset) (drop s.offset job.apdu)) (replicate 256 0) 0,
      blank_room,
      j.little_room,
    );
  }

  -- The last octets of the APDU are in it, or more blocks follow.
  pub last_iff : (block_from job s).last_block ≡ leb (length job.apdu) (advance job s).offset
  unfolding block_from
  last_iff = ground (arith, j.few_octets, j.little_room)

  behind :
      (advance job s).offset
      ≡ min ((s.block_number - 1 + 1) * job.block_payload_max) (length job.apdu)
  behind = omega (arith, next_start, j.few_octets)

  pub advance-InStep : InStep job (advance job s)
  advance-InStep = record {
    numbered = omega (arith, v.counted, v.numbered, j.few_octets);
    counted = omega (arith, v.counted, j.few_octets, j.some_room);
    before =
        behind
        ∙ ap (λ (t : ℕ). min (t * job.block_payload_max) (length job.apdu))
            {x = s.block_number - 1 + 1} (omega (arith, v.counted, v.numbered, j.few_octets));
  }

  pub advance_moves : s.offset < (advance job s).offset
  advance_moves = omega (arith, j.few_octets, j.some_room, j.little_room)
