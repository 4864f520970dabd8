-- ===== src/Tests.antt =====
-- The theorems at concrete inputs, and the standard test values of the routines.
pub mod Codec
pub mod Transport
pub mod Service
pub mod Values
pub mod Session
