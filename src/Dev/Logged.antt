-- ===== src/Dev/Logged.antt =====
-- What becomes of what is logged.
use mathlib.Core.Option
use kappaio.Common.{Option}
