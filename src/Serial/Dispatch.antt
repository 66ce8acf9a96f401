-- ===== src/Serial/Dispatch.antt =====
-- Which function a packet goes to: `MT_ProcessIncoming`, its table and its registration, of
-- src/hal/source/mtproc.c, with `mtOOBRecv` of src/hal/source/mt_helper.cpp.
pub mod Laws
mod Tests
use kappaio.Common.{
  ℕ, ◌+◌, ◌%◌, Bool, true, false, List, [], ◌∷◌, Option, none, some, get_or, set, length, ltb, ◌==◌,
  if◌then◌else◌, ◌&&◌,
}

-- The functions that the table holds, and those that `registerSubsystemCb` may put there.
pub data Handler : Type 0 where
  mt_sys mt_af mt_zdo mt_util mt_debug : Handler
  callback : ℕ → Handler

abbrev pub Table : Type 0
Table = List (Option Handler)

-- `mtProcessIncoming`, with the functions that kglobal.h switches on.
unfoldable pub mt_process_incoming : Table
mt_process_incoming =
    none
    ∷ some mt_sys
    ∷ none
    ∷ none
    ∷ some mt_af
    ∷ some mt_zdo
    ∷ none
    ∷ some mt_util
    ∷ some mt_debug
    ∷ none
    ∷ none
    ∷ none
    ∷ none
    ∷ none
    ∷ none
    ∷ []

-- MT_RPC_SYS_MAX, MT_RPC_DATA_MAX, MT_SYS_WDT_KICK
abbrev pub mt_rpc_sys_max : ℕ
mt_rpc_sys_max = 14

abbrev pub mt_rpc_data_max : ℕ
mt_rpc_data_max = 250

abbrev pub mt_sys_wdt_kick : ℕ
mt_sys_wdt_kick = 0x44

-- `cmd0 & MT_RPC_SUBSYSTEM_MASK`, the low five bits.
abbrev pub subsystem_of : ℕ → ℕ
subsystem_of cmd0 = cmd0 % 32

-- The answer to a watchdog kick, which goes past the table.
unfoldable pub mt_oob_recv : List ℕ → Bool
mt_oob_recv pkt = get_or pkt 1 0 == 0x61 && get_or pkt 2 0 == mt_sys_wdt_kick

-- What becomes of a packet. The response code `rsp[0]` is never sent.
pub data Fate : Type 0 where
  bad_length : Fate
  out_of_band : Fate
  handled : Handler → Fate
  unknown_message : Fate
  bad_subsystem : Fate

unfoldable pub call : Option Handler → Fate
call (some h) = handled h
call none = unknown_message

unfoldable pub process_incoming : Table → List ℕ → Fate
process_incoming table pkt =
    if ltb mt_rpc_data_max (get_or pkt 0 0)
    then bad_length
    else (if ltb (subsystem_of (get_or pkt 1 0)) mt_rpc_sys_max
        then (if mt_oob_recv pkt
            then out_of_band
            else call (get_or table (subsystem_of (get_or pkt 1 0)) none))
        else bad_subsystem)

-- `registerSubsystemCb`: 0 and the new table, or -1. The index is not checked; `none` stands for
-- an access behind the array.
pub data Registered : Type 0 where
  done : Table → Registered
  refused : Registered
  out_of_bounds : Registered

unfoldable pub put_callback : Table → ℕ → Handler → Option Handler → Registered
put_callback table subsystem h none = done (set table subsystem (some h))
put_callback table subsystem h (some old) = refused

unfoldable pub register_subsystem_cb : Table → ℕ → Handler → Registered
register_subsystem_cb table subsystem h =
    if ltb subsystem (length table)
    then put_callback table subsystem h (get_or table subsystem none)
    else out_of_bounds

-- `StartMT_Af`
unfoldable pub start_mt_af : Table → Table
start_mt_af table = set table 4 (some mt_af)
