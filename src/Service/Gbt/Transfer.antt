-- ===== src/Service/Gbt/Transfer.antt =====
-- src/service/gbt.c: an APDU is sent as numbered blocks and put together again. The transport is
-- whatever sends and receives APDUs, `transport_send_apdu` and `transport_recv_apdu` for one. The
-- two loops run on fuel and give `none` when it ends.
pub mod Pieces
pub mod Ends
pub mod Wire
use openspodes.Prelude.{
  ℕ, zero, suc, ◌+◌, ◌*◌, ◌-◌, ◌^◌, min, Bool, true, false, ◌&&◌, ◌||◌, List, [], ◌∷◌, ◌++◌, length,
  take, drop, replicate, get_or, ltb, leb, ◌==◌, not, if◌then◌else◌, u8, u16, u32, bit_and, Option,
  none, some,
}
use openspodes.Prelude.Slices.{blit}
use openspodes.Err.{Call, Outcome, ok, err, invalid, nomem, ◌>>=◌, ◌>>◌, pure, fail_if}
use openspodes.Buf.{Buf, buf_init}
use openspodes.Buf.View.{content}
use openspodes.Service.Gbt.{
  Gbt, gbt_encode, gbt_decode, gbt_window_mask, max_octet_len, tag_general_block_transfer,
}

-- What a transfer uses of a transport W. `recv_apdu` is given the size of the array and the
-- timeout. `stack` is what the local array of a block holds before it is filled in.
pub record Line (W : Type 0) : Type 0 where
  pub send_apdu : List ℕ → Call W (Unit {0})
  pub recv_apdu : ℕ → ℕ → Call W (List ℕ)
  pub stack : W → List ℕ

-- The arrays the caller lends, and the timeout.
pub record Scratch : Type 0 where
  pub tx_scratch : List ℕ
  pub rx_scratch_size : ℕ
  pub timeout_ms : ℕ

-- OSP_GBT_MAX_APDU
abbrev pub gbt_max_apdu : ℕ
gbt_max_apdu = 4096

-- `osp_buf_init(&buf, apdu, len); buf.wr = len;`
abbrev pub filled : List ℕ → Buf
filled apdu = record { buf = apdu; size = length apdu; rd = 0; wr = length apdu }

-- The first octet is the tag, and the rest a block.
unfoldable pub block_in : {W : Type 0} → Line W → List ℕ → Call W Gbt
block_in line apdu w =
    if length apdu == 0 || not (get_or apdu 0 0 == tag_general_block_transfer)
    then err invalid w
    else elim (gbt_decode (line.stack w) (filled apdu)) [
      | ok g b ↦ ok g w
      | err e b ↦ err invalid w
    ]

module _ {W : Type 0} (line : Line W) (scratch : Scratch) where
  unfoldable pub gbt_send_block : Gbt → Call W (Unit {0})
  gbt_send_block g w =
      elim (gbt_encode g (buf_init scratch.tx_scratch (length scratch.tx_scratch))) [
        | ok u b ↦ line.send_apdu (content b) w
        | err e b ↦ err invalid w
      ]

  unfoldable pub gbt_recv_block : Call W Gbt
  gbt_recv_block =
      line.recv_apdu scratch.rx_scratch_size scratch.timeout_ms >>= λ apdu. block_in line apdu

  unfoldable pub gbt_send_ack : ℕ → ℕ → ℕ → Call W (Unit {0})
  gbt_send_ack window block_number block_number_ack = gbt_send_block record {
    last_block = true;
    streaming = false;
    window = bit_and window gbt_window_mask;
    block_number = block_number;
    block_number_ack = block_number_ack;
    block_data = replicate max_octet_len 0;
    block_data_len = 0;
  }

  -- Only a block without data that is the last and not streaming is an acknowledgement here.
  unfoldable pub gbt_wait_for_ack : ℕ → Call W Gbt
  gbt_wait_for_ack block_number_ack = do
    ack ← gbt_recv_block
    fail_if (not (ack.block_data_len == 0) || not ack.last_block || ack.streaming) invalid
    fail_if (ltb ack.block_number_ack block_number_ack) invalid
    pure ack

-- The variables of the sender's loop.
pub record Sending : Type 0 where
  pub offset : ℕ
  pub block_number : ℕ
  pub blocks_in_window : ℕ

-- The arguments of a transfer.
pub record Job : Type 0 where
  pub apdu : List ℕ
  pub block_payload_max : ℕ
  pub window : ℕ
  pub streaming : Bool

abbrev pub chunk_len : Job → ℕ → ℕ
chunk_len job offset = min (length job.apdu - offset) job.block_payload_max

-- The block that is sent from `offset`.
unfoldable pub block_from : Job → Sending → Gbt
block_from job s =
    let chunk = chunk_len job s.offset in
    record {
      last_block = leb (length job.apdu) (s.offset + chunk);
      streaming = job.streaming;
      window = bit_and job.window gbt_window_mask;
      block_number = s.block_number;
      block_number_ack = 0;
      block_data = blit (replicate max_octet_len 0) 0 (take chunk (drop s.offset job.apdu));
      block_data_len = chunk;
    }

-- After an acknowledgement up to `acked`: go on, or go back to the first block it does not cover.
-- There the number is `acked + 1` and at least 1.
unfoldable pub after_ack : Job → ℕ → Sending → Sending
after_ack job acked s =
    let number = u16 (acked + 1) in
    let back = u32 (u32 (number - 1) * job.block_payload_max) in
    if ltb (acked + 1) s.block_number
    then if leb (length job.apdu) back
      then record { offset = 0; block_number = 1; blocks_in_window = 0 }
      else record { offset = back; block_number = number; blocks_in_window = 0 }
    else record s { blocks_in_window = 0 }

abbrev pub advance : Job → Sending → Sending
advance job s = record {
  offset = u32 (s.offset + chunk_len job s.offset);
  block_number = u16 (s.block_number + 1);
  blocks_in_window = u16 (s.blocks_in_window + 1);
}

-- The window is full and the block was not the last.
abbrev pub must_wait : Job → Bool → Sending → Bool
must_wait job last s =
    let win = bit_and job.window gbt_window_mask in
    ltb 0 win && not last && leb win s.blocks_in_window

-- The tests in front of both senders' loops.
abbrev pub bad_job : Job → Bool
bad_job job =
    length job.apdu == 0
    || ltb gbt_max_apdu (length job.apdu)
    || job.block_payload_max == 0
    || ltb max_octet_len job.block_payload_max

abbrev pub Run : Type 0 → Type 0 → Type 0
Run W A = Option (Outcome W A)

abbrev pub sending_starts : Sending
sending_starts = record { offset = 0; block_number = 1; blocks_in_window = 0 }

module _ {W : Type 0} (line : Line W) (scratch : Scratch) (job : Job) where
  -- One turn of the loop. `wait` is what is done when a window is full.
  unfoldable pub send_turn : (Sending → Call W Sending) → Sending → Call W Sending
  send_turn wait s = do
    gbt_send_block line scratch (block_from job s)
    let s' = advance job s in
        if must_wait job (block_from job s).last_block s' then wait s' else pure s'

  unfoldable pub send_loop : (Sending → Call W Sending) → ℕ → Sending → W → Run W (Unit {0})
  send_loop wait zero s w = if ltb s.offset (length job.apdu) then none else some (ok tt w)
  send_loop wait (suc fuel) s w = elim (ltb s.offset (length job.apdu)) [
    | true ↦ elim (send_turn wait s w) [
      | ok s' w' ↦ send_loop wait fuel s' w'
      | err e w' ↦ some (err e w')
    ]
    | false ↦ some (ok tt w)
  ]

  unfoldable pub wait_for_peer : Sending → Call W Sending
  wait_for_peer s = do
    ack ← gbt_wait_for_ack line scratch (u16 (s.block_number + 2 ^ 16 - 1))
    pure (after_ack job ack.block_number_ack s)

  -- The streaming sender takes data with the acknowledgement and hands it to the application.
  unfoldable pub wait_with_data : (List ℕ → W → W) → Sending → Call W Sending
  wait_with_data on_receive s w = elim (gbt_recv_block line scratch w) [
    | ok ack w' ↦ ok (after_ack job ack.block_number_ack s) (
        if ltb 0 ack.block_data_len
        then on_receive (take ack.block_data_len ack.block_data) w'
        else w')
    | err e w' ↦ err e w'
  ]

  unfoldable pub gbt_transport_send : ℕ → W → Run W (Unit {0})
  gbt_transport_send fuel w =
      if bad_job job then some (err invalid w) else send_loop wait_for_peer fuel sending_starts w

-- The streaming sender sets STR on every block.
unfoldable pub gbt_transport_send_streaming_bidir :
    {W : Type 0} → Line W → Scratch → Job → (List ℕ → W → W) → ℕ → W → Run W (Unit {0})
gbt_transport_send_streaming_bidir line scratch job on_receive fuel w =
    let streamed = record job { streaming = true } in
    if bad_job streamed
    then some (err invalid w)
    else send_loop line scratch streamed (wait_with_data line scratch streamed on_receive) fuel
        sending_starts w
