-- ===== src/Transport/Wrapper.antt =====
-- src/transport/transport.c, "COSEM Wrapper": eight octets in front of the APDU. The arguments that
-- the source tests for NULL are there.
pub mod RoundTrip
use openspodes.Prelude.{
  ℕ, ◌+◌, Bool, List, [], ◌∷◌, ◌++◌, length, get_or, take, drop, ltb, ◌==◌, not, if◌then◌else◌, u8,
  u16, u32, ◌<<◌, ◌>>>◌, bit_and, bit_or,
}
use openspodes.Err.{Call, ok, err, Result, done, refused, nomem, invalid}

abbrev pub wrapper_version : ℕ
wrapper_version = 0x0001

abbrev pub wrapper_header_size : ℕ
wrapper_header_size = 8

pub record WrapperHeader : Type 0 where
  pub version : ℕ
  pub source : ℕ
  pub destination : ℕ
  pub length : ℕ

-- `apdu_len` is the number of octets of the APDU; the length field is its low sixteen bits.
unfoldable pub wrapper_encode : ℕ → ℕ → List ℕ → ℕ → Result (List ℕ)
wrapper_encode source dest apdu max_len =
    let apdu_len = length apdu in
    if ltb max_len (u32 (apdu_len + wrapper_header_size))
    then refused nomem
    else done (
        0x00
        ∷ u8 wrapper_version
        ∷ u8 (source >>> 8)
        ∷ u8 (bit_and source 0xFF)
        ∷ u8 (dest >>> 8)
        ∷ u8 (bit_and dest 0xFF)
        ∷ u8 (apdu_len >>> 8)
        ∷ u8 (bit_and apdu_len 0xFF)
        ∷ apdu)

abbrev pub header_word : List ℕ → ℕ → ℕ
header_word octets i = u16 (bit_or (get_or octets i 0 << 8) (get_or octets (i + 1) 0))

abbrev pub read_header : List ℕ → WrapperHeader
read_header octets = record {
  version = header_word octets 0;
  source = header_word octets 2;
  destination = header_word octets 4;
  length = header_word octets 6;
}

-- The value is the APDU that `*apdu` points at, `*apdu_len` octets of it.
unfoldable pub wrapper_decode : List ℕ → Call WrapperHeader (List ℕ)
wrapper_decode octets header =
    let len = length octets in
    let h = read_header octets in
    if ltb len wrapper_header_size
    then err invalid header
    else if not (h.version == wrapper_version)
    then err invalid h
    else if ltb len (h.length + wrapper_header_size)
    then err invalid h
    else ok (take h.length (drop wrapper_header_size octets)) h
