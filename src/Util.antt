-- ===== src/Util.antt =====
-- The conversions and the lock of src/kapi/source/kutil.cpp and src/kapi/include/kutil.h.
pub mod Hex
pub mod Lock
