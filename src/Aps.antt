-- ===== src/Aps.antt =====
-- The application support layer: src/aps.
pub mod Af
pub mod DataService
pub mod Message
pub mod Model
pub mod Peer
