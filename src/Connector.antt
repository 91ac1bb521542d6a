-- ===== src/Connector.antt =====
-- The parts of lib/connector.
pub mod Slot
pub mod Pool
