-- ===== src/Session/Xid.antt =====
-- src/transport/hdlc_session.c, "XID parameter encoding/decoding" and `negotiate_xid`. A parameter's
-- value is the octets behind its identifier and its length.
pub mod RoundTrip
pub mod Agreement
pub mod Fuel
use openspodes.Prelude.{
  ℕ, zero, suc, ◌+◌, Bool, true, false, ◌&&◌, List, [], ◌∷◌, ◌++◌, length, get_or, ltb, leb, ◌==◌,
  if◌then◌else◌, Option, none, some, u8, u16, u32, ◌<<◌, ◌>>>◌, bit_and, bit_or,
}

pub record XidParams : Type 0 where
  pub max_info_tx : ℕ
  pub max_info_rx : ℕ
  pub window_tx : ℕ
  pub window_rx : ℕ

abbrev pub zero_xid : XidParams
zero_xid = record { max_info_tx = 0; max_info_rx = 0; window_tx = 0; window_rx = 0 }

-- What follows the group length.
abbrev pub xid_group : XidParams → List ℕ
xid_group p =
    0x05
    ∷ 0x02
    ∷ u8 (bit_and (p.max_info_tx >>> 8) 0xFF)
    ∷ u8 (bit_and p.max_info_tx 0xFF)
    ∷ 0x06
    ∷ 0x02
    ∷ u8 (bit_and (p.max_info_rx >>> 8) 0xFF)
    ∷ u8 (bit_and p.max_info_rx 0xFF)
    ∷ 0x07
    ∷ 0x04
    ∷ 0x00
    ∷ 0x00
    ∷ 0x00
    ∷ u8 (bit_and p.window_tx 0xFF)
    ∷ 0x08
    ∷ 0x04
    ∷ 0x00
    ∷ 0x00
    ∷ 0x00
    ∷ u8 (bit_and p.window_rx 0xFF)
    ∷ []

unfoldable pub encode_xid_params : XidParams → List ℕ
encode_xid_params p = 0x81 ∷ 0x80 ∷ u8 (length (xid_group p)) ∷ xid_group p

abbrev pub info_value : List ℕ → ℕ → ℕ → ℕ → ℕ
info_value d idx param_len old =
    if param_len == 2
    then u16 (bit_or (get_or d idx 0 << 8) (get_or d (idx + 1) 0))
    else if leb 1 param_len
    then get_or d idx 0
    else old

-- The four octets as a uint32_t, cut to the uint8_t that they are stored in.
abbrev pub window_value : List ℕ → ℕ → ℕ → ℕ → ℕ
window_value d idx param_len old =
    if leb 4 param_len
    then u8 (
        bit_or
          (bit_or (bit_or (u32 (get_or d idx 0 << 24)) (u32 (get_or d (idx + 1) 0 << 16)))
            (u32 (get_or d (idx + 2) 0 << 8)))
          (get_or d (idx + 3) 0))
    else old

unfoldable pub set_param : List ℕ → ℕ → ℕ → ℕ → XidParams → XidParams
set_param d idx param_id param_len p =
    if param_id == 0x05
    then record p { max_info_tx = info_value d idx param_len p.max_info_tx }
    else if param_id == 0x06
    then record p { max_info_rx = info_value d idx param_len p.max_info_rx }
    else if param_id == 0x07
    then record p { window_tx = window_value d idx param_len p.window_tx }
    else if param_id == 0x08
    then record p { window_rx = window_value d idx param_len p.window_rx }
    else p

-- `while (idx + 2 <= len)`, on fuel: `none` is a loop that still runs when the fuel ends.
unfoldable pub decode_loop : ℕ → List ℕ → ℕ → XidParams → Option XidParams
decode_loop zero d idx p = none
decode_loop (suc fuel) d idx p =
    let param_id = get_or d idx 0 in
    let param_len = get_or d (idx + 1) 0 in
    let rest =
      decode_loop fuel d (u16 (u16 (idx + 2) + param_len))
        (set_param d (u16 (idx + 2)) param_id param_len p) in
    if ltb (length d) (idx + 2)
    then some p
    else if ltb (length d) (u16 (idx + 2) + param_len)
    then some p
    else rest

-- Where the parameters begin.
abbrev pub params_start : List ℕ → ℕ
params_start d = if leb 3 (length d) && (get_or d 0 0 == 0x81 && get_or d 1 0 == 0x80) then 3 else 0

unfoldable pub decode_xid_params : List ℕ → XidParams → XidParams
decode_xid_params d p = elim (decode_loop (suc (length d)) d (params_start d) p) [
  | some q ↦ q
  | none ↦ p
]

-- `if (peer > 0 && peer < own) own = peer;`
abbrev pub lower_to : ℕ → ℕ → ℕ
lower_to peer own = if ltb 0 peer && ltb peer own then peer else own

-- The session's `xid`, from the information field of the peer's SNRM or UA.
unfoldable pub negotiate_xid : List ℕ → XidParams → XidParams
negotiate_xid info xid =
    let peer = decode_xid_params info zero_xid in
    if length info == 0 then xid else record {
      max_info_tx = lower_to peer.max_info_rx xid.max_info_tx;
      max_info_rx = lower_to peer.max_info_tx xid.max_info_rx;
      window_tx = lower_to peer.window_rx xid.window_tx;
      window_rx = lower_to peer.window_tx xid.window_rx;
    }
