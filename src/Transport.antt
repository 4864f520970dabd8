-- ===== src/Transport.antt =====
-- src/transport/transport.c: the HDLC frame check sequence, addresses, control field and frames,
-- the COSEM wrapper, and an APDU through either framing.
pub mod Crc
pub mod Address
pub mod Control
pub mod Frame
pub mod Wrapper
pub mod Apdu
