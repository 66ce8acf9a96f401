-- ===== src/Serial.antt =====
-- The serial link to the ZigBee processor: src/hal/source/mtproc.c and mtintf.c.
pub mod Frame
pub mod Port
pub mod Dispatch
pub mod Channel
