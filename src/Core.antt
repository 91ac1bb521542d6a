-- ===== src/Core.antt =====
-- The base layer, lib/core.
pub mod TextEnc
pub mod Arena
