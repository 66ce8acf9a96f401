-- ===== src/Rest.antt =====
-- The REST interface: handlers by name, requests to them, and the widgets' registry (src/kapi, src/aps, src/kintf).
pub mod Notify
pub mod Request
pub mod Widgets
