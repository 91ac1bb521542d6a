-- ===== src/Gateway.antt =====
-- The pure parts of src/gateway/api.c.
pub mod Order
