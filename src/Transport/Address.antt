-- ===== src/Transport/Address.antt =====
-- src/transport/transport.c, "HDLC address": up to four octets of seven bits each, the highest group
-- first, with the lowest bit set on the last. Of `osp_hdlc_address_t` the octets in use are kept,
-- and its `length` is their number; the others are never read.
pub mod RoundTrip
use openspodes.Prelude.{
  ℕ, zero, suc, ◌+◌, List, [], ◌∷◌, length, get_or, u8, u32, ◌<<◌, ◌>>>◌, bit_and, bit_or, ◌==◌,
  if◌then◌else◌,
}

abbrev pub HdlcAddress : Type 0
HdlcAddress = List ℕ

abbrev pub max_addr_len : ℕ
max_addr_len = 4

-- `while (v > 0 && n < OSP_HDLC_MAX_ADDR_LEN) { tmp[n++] = v & 0x7F; v >>= 7; }`
unfoldable pub address_groups : ℕ → ℕ → List ℕ
address_groups zero v = []
address_groups (suc room) v =
    let rest = address_groups room (v >>> 7) in if v == 0 then [] else u8 (bit_and v 0x7F) ∷ rest

-- The groups in reverse, each moved up by one bit; the loop's `i` counts up to where this count
-- goes down, and `i + 1 == n` is a count of one.
unfoldable pub address_octets : ℕ → List ℕ → List ℕ
address_octets zero tmp = []
address_octets (suc i) tmp =
    bit_or (u8 (get_or tmp i 0 << 1)) (if i == 0 then 0x01 else 0) ∷ address_octets i tmp

-- The `length` argument is not used.
unfoldable pub hdlc_address_init : ℕ → HdlcAddress
hdlc_address_init value =
    let tmp = address_groups max_addr_len value in
    if value == 0 then 0x01 ∷ [] else address_octets (length tmp) tmp

unfoldable pub address_value_loop : ℕ → List ℕ → ℕ
address_value_loop val [] = val
address_value_loop val (x ∷ xs) =
    address_value_loop (bit_or (u32 (val << 7)) (bit_and (x >>> 1) 0x7F)) xs

unfoldable pub hdlc_address_value : HdlcAddress → ℕ
hdlc_address_value addr = address_value_loop 0 addr
