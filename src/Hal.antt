-- ===== src/Hal.antt =====
-- The commands of the gateway to its ZigBee processor, and what is built on them (src/hal).
pub mod Request
pub mod Nv
pub mod Ping
pub mod Network
pub mod Info
