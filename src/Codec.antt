-- ===== src/Codec.antt =====
-- src/codec/codec.c: the definite lengths shared by BER and A-XDR, and the BER and A-XDR readers
-- and writers built on them. Pointers are never null here.
pub mod Len
pub mod Ber
pub mod Axdr
pub mod Wire
pub mod Serialize
pub mod Value
pub mod TypeDescription
pub mod CompactArray
