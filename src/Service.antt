-- ===== src/Service.antt =====
-- src/service: what the application layer sends and how it is encoded.
pub mod Gbt
pub mod Initiate
