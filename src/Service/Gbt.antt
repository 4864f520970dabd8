-- ===== src/Service/Gbt.antt =====
-- src/service/gbt.h and gbt.c: the general block transfer. First the block and its encoding.
pub mod Block
pub mod Truncated
pub mod Transfer
pub mod Receive
pub mod Delivery
pub mod Confirmed
use openspodes.Prelude.{
  ℕ, zero, suc, Bool, true, false, ◌||◌, List, [], ◌∷◌, take, set, ltb, ◌==◌, not, if◌then◌else◌,
  bit_and, bit_or,
}
use openspodes.Err.{Call, Outcome, ok, err, invalid, ◌>>=◌, ◌>>◌, pure, fail_if, attempt, code}
use openspodes.Buf.{Buf}
use openspodes.Codec.Len.{axdr_read_length, axdr_push_length}
use openspodes.Codec.Axdr.{axdr_read_u8, axdr_read_u16, axdr_write_u8, axdr_write_u16}

abbrev pub tag_general_block_transfer : ℕ
tag_general_block_transfer = 0xE0

abbrev pub gbt_last_block : ℕ
gbt_last_block = 0x80

abbrev pub gbt_streaming : ℕ
gbt_streaming = 0x40

abbrev pub gbt_window_mask : ℕ
gbt_window_mask = 0x3F

-- OSP_MAX_OCTET_LEN
abbrev pub max_octet_len : ℕ
max_octet_len = 256

-- `block_data` is the array, of which the first `block_data_len` octets are the block's.
pub record Gbt : Type 0 where
  pub last_block : Bool
  pub streaming : Bool
  pub window : ℕ
  pub block_number : ℕ
  pub block_number_ack : ℕ
  pub block_data : List ℕ
  pub block_data_len : ℕ

unfoldable pub control_octet : Gbt → ℕ
control_octet g =
    bit_or
      (bit_or (if g.last_block then gbt_last_block else 0)
        (if g.streaming then gbt_streaming else 0))
      (bit_and g.window gbt_window_mask)

-- `for (...) osp_axdr_write_u8(buf, gbt->block_data[i]);`: what the calls return is not looked at.
unfoldable pub write_data : List ℕ → Call Buf (Unit {0})
write_data [] = pure tt
write_data (x ∷ xs) = attempt (axdr_write_u8 x) >> write_data xs

unfoldable pub gbt_encode : Gbt → Call Buf (Unit {0})
gbt_encode g = do
  code (axdr_write_u8 tag_general_block_transfer)
  code (axdr_write_u8 (control_octet g))
  code (axdr_write_u16 g.block_number)
  code (axdr_write_u16 g.block_number_ack)
  axdr_push_length g.block_data_len
  write_data (take g.block_data_len g.block_data)

-- `osp_axdr_read_u8(buf, &gbt->block_data[i])`: an element that is not read keeps its value.
unfoldable pub read_element : List ℕ → ℕ → Call Buf (List ℕ)
read_element data_array i b = elim (axdr_read_u8 b) [
  | ok x b' ↦ ok (set data_array i x) b'
  | err e b' ↦ ok data_array b'
]

unfoldable pub read_data : ℕ → ℕ → List ℕ → Call Buf (List ℕ)
read_data zero i data_array = pure data_array
read_data (suc n) i data_array = read_element data_array i >>= read_data n (suc i)

-- `old` is what the array of the block that is filled in held before.
unfoldable pub gbt_decode : List ℕ → Call Buf Gbt
gbt_decode old = do
  tag ← code axdr_read_u8
  fail_if (not (tag == tag_general_block_transfer)) invalid
  ctrl ← code axdr_read_u8
  number ← code axdr_read_u16
  number_ack ← code axdr_read_u16
  len ← axdr_read_length
  fail_if (ltb max_octet_len len) invalid
  data_array ← read_data len 0 old
  pure record {
    last_block = not (bit_and ctrl gbt_last_block == 0);
    streaming = not (bit_and ctrl gbt_streaming == 0);
    window = bit_and ctrl gbt_window_mask;
    block_number = number;
    block_number_ack = number_ack;
    block_data = data_array;
    block_data_len = len;
  }

-- The tags of the xDLMS services that may be cut into blocks.
unfoldable pub gbt_applies_to_apdu : List ℕ → Bool
gbt_applies_to_apdu [] = false
gbt_applies_to_apdu (tag ∷ _) =
    tag == 0xC0
    || tag == 0xC4
    || tag == 0xC1
    || tag == 0xC5
    || tag == 0xC3
    || tag == 0xC7
    || tag == 0x0F
    || tag == 0xC2
