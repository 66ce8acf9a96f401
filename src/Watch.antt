-- ===== src/Watch.antt =====
-- The watchdog process, src/kappaio-watch/source/kappaio_watch.cpp. A turn of its loop reads the files, of the
-- gateway and of /proc, and may restart the gateway.
pub mod Laws
mod Tests
use kappaio.Common.{
  ℕ, suc, ◌+◌, Bool, true, false, List, [], ◌∷◌, Option, none, some, ltb, ◌==◌, if◌then◌else◌,
}

-- What `stat` says of a directory of /proc.
pub data Stat : Type 0 where
  found no_entry stat_error : Stat

-- The number in the file of the keep-alive counter.
pub data KeepAlive : Type 0 where
  negative : KeepAlive
  count : ℕ → KeepAlive

-- What a turn finds: the process id in the PID file and the counter, if their files exist, and /proc.
pub record Files : Type 0 where
  pub pid_file : Option ℕ
  pub proc : ℕ → Stat
  pub kla_file : Option KeepAlive

-- `checkByPIDFile`, whether it returns 0, and `readKLA`.
unfoldable pub exists : Stat → Bool
exists found = true
exists no_entry = false
exists stat_error = true

unfoldable pub check_pid : (ℕ → Stat) → Option ℕ → Bool
check_pid proc none = false
check_pid proc (some pid) = exists (proc pid)

unfoldable pub check_by_pid_file : Files → Bool
check_by_pid_file f = check_pid f.proc f.pid_file

unfoldable pub counter : Option KeepAlive → KeepAlive
counter none = negative
counter (some k) = k

unfoldable pub read_kla : Files → KeepAlive
read_kla f = counter f.kla_file

-- The variables of `main` that outlive a turn.
pub record Watch : Type 0 where
  pub keep_alive_count_ref : ℕ
  pub tolerance : ℕ

unfoldable pub start : Watch
start = record { keep_alive_count_ref = 0; tolerance = 0 }

-- A turn, and whether it restarts the gateway.
unfoldable pub compare_count : Watch → KeepAlive → Watch × Bool
compare_count w negative = (w, true)
compare_count w (count k) =
    if k == w.keep_alive_count_ref
    then (if ltb 0 w.tolerance
        then (record w { tolerance = 0 }, true)
        else (record w { tolerance = w.tolerance + 1 }, false))
    else (record { keep_alive_count_ref = k; tolerance = 0 }, false)

unfoldable pub turn : Watch → Files → Watch × Bool
turn w f = if check_by_pid_file f then compare_count w (read_kla f) else (w, true)

-- How often turns restart the gateway.
unfoldable pub restarts : Watch → List Files → ℕ
restarts w [] = 0
restarts w (f ∷ fs) =
    let (w', restarted) = turn w f in
    let rest = restarts w' fs in if restarted then suc rest else rest
