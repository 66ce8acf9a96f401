-- ===== src/Boot.antt =====
-- The firmware update over the serial boot loader: src/sbl.
pub mod Image
pub mod Crc
pub mod Flash
