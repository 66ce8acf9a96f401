-- ===== src/Util/Lock.antt =====
-- The lock of src/kapi/source/kutil.cpp, `klock_c`: readers share it, a writer has it alone. Threads run in any
-- order, one step at a time; a step is one operation on a semaphore with what follows it up to the
-- next one. Threads are alike, so a state counts how many of them are at each place.
pub mod Laws
pub mod Progress
mod Tests
use kappaio.Common.{
  ℕ, ◌+◌, ◌-◌, Bool, true, false, ◌&&◌, not, List, [], ◌∷◌, Option, none, some, leb, ◌==◌,
  if◌then◌else◌,
}

-- The semaphores and `shLockCnt`, then the places in the functions: in `shLockAcquire` before
-- `sem_wait(shLockPriv)`, before `sem_trywait`, before the first `sem_wait(shLock)`, behind it, before
-- `sem_wait(exLock)`, before the `sem_wait(shLock)` that follows `exLock`, behind it, and before
-- `sem_post(shLockPriv)`; a reader; in `shLockRelease` behind its `sem_wait`, and between `sem_post(exLock)` and
-- `sem_post(shLock)`; in `exLockAcquire` before its `sem_wait`; a writer; in `exLockRelease` behind its `sem_wait`,
-- and between its two `sem_post`.
pub record Lock : Type 0 where
  pub sh_lock_priv : ℕ
  pub sh_lock : ℕ
  pub ex_lock : ℕ
  pub sh_lock_cnt : ℕ
  pub at_priv : ℕ
  pub at_try : ℕ
  pub at_count : ℕ
  pub in_count : ℕ
  pub at_ex : ℕ
  pub at_first : ℕ
  pub in_first : ℕ
  pub at_end : ℕ
  pub readers : ℕ
  pub in_sh_release : ℕ
  pub at_sh_post : ℕ
  pub at_ex_acquire : ℕ
  pub writers : ℕ
  pub in_ex_release : ℕ
  pub at_ex_post : ℕ

-- `klock_c::klock_c`
unfoldable pub klock : Lock
klock = record {
  sh_lock_priv = 1;
  sh_lock = 1;
  ex_lock = 1;
  sh_lock_cnt = 0;
  at_priv = 0;
  at_try = 0;
  at_count = 0;
  in_count = 0;
  at_ex = 0;
  at_first = 0;
  in_first = 0;
  at_end = 0;
  readers = 0;
  in_sh_release = 0;
  at_sh_post = 0;
  at_ex_acquire = 0;
  writers = 0;
  in_ex_release = 0;
  at_ex_post = 0;
}

-- The steps. Only a reader begins `shLockRelease`, and only a writer `exLockRelease`; any thread may call
-- the other two.
pub data Action : Type 0 where
  call_sh call_ex : Action
  enter try_ex wait_count count wait_ex wait_first first leave : Action
  begin_sh_release sh_release sh_post : Action
  ex_acquire begin_ex_release ex_release ex_post : Action

-- `none` if no thread can take the step: none is there, or the semaphore is taken.
abbrev pub guard : Bool → Lock → Option Lock
guard b s = if b then some s else none

unfoldable pub step : Action → Lock → Option Lock
step call_sh s = some (record s { at_priv = s.at_priv + 1 })
step call_ex s = some (record s { at_ex_acquire = s.at_ex_acquire + 1 })
step enter s =
    guard (leb 1 s.at_priv && leb 1 s.sh_lock_priv) (record s {
      at_priv = s.at_priv - 1;
      sh_lock_priv = s.sh_lock_priv - 1;
      at_try = s.at_try + 1;
    })
step try_ex s = guard (leb 1 s.at_try) (
    if leb 1 s.ex_lock
    then record s { at_try = s.at_try - 1; ex_lock = s.ex_lock - 1; at_first = s.at_first + 1 }
    else record s { at_try = s.at_try - 1; at_count = s.at_count + 1 })
step wait_count s =
    guard (leb 1 s.at_count && leb 1 s.sh_lock)
      (record s { at_count = s.at_count - 1; sh_lock = s.sh_lock - 1; in_count = s.in_count + 1 })
step count s = guard (leb 1 s.in_count) (
    if s.sh_lock_cnt == 0
    then record s { in_count = s.in_count - 1; sh_lock = s.sh_lock + 1; at_ex = s.at_ex + 1 }
    else record s {
      in_count = s.in_count - 1;
      sh_lock_cnt = s.sh_lock_cnt + 1;
      sh_lock = s.sh_lock + 1;
      at_end = s.at_end + 1;
    })
step wait_ex s =
    guard (leb 1 s.at_ex && leb 1 s.ex_lock)
      (record s { at_ex = s.at_ex - 1; ex_lock = s.ex_lock - 1; at_first = s.at_first + 1 })
step wait_first s =
    guard (leb 1 s.at_first && leb 1 s.sh_lock)
      (record s { at_first = s.at_first - 1; sh_lock = s.sh_lock - 1; in_first = s.in_first + 1 })
step first s = guard (leb 1 s.in_first) (record s {
  in_first = s.in_first - 1;
  sh_lock_cnt = s.sh_lock_cnt + 1;
  sh_lock = s.sh_lock + 1;
  at_end = s.at_end + 1;
})
step leave s =
    guard (leb 1 s.at_end) (record s {
      at_end = s.at_end - 1;
      sh_lock_priv = s.sh_lock_priv + 1;
      readers = s.readers + 1;
    })
step begin_sh_release s = guard (leb 1 s.readers && leb 1 s.sh_lock) (record s {
  readers = s.readers - 1;
  sh_lock = s.sh_lock - 1;
  in_sh_release = s.in_sh_release + 1;
})
step sh_release s = guard (leb 1 s.in_sh_release) (
    if s.sh_lock_cnt == 1
    then record s {
      in_sh_release = s.in_sh_release - 1;
      sh_lock_cnt = 0;
      ex_lock = s.ex_lock + 1;
      at_sh_post = s.at_sh_post + 1;
    }
    else record s {
      in_sh_release = s.in_sh_release - 1;
      sh_lock_cnt = s.sh_lock_cnt - 1;
      sh_lock = s.sh_lock + 1;
    })
step sh_post s =
    guard (leb 1 s.at_sh_post) (record s { at_sh_post = s.at_sh_post - 1; sh_lock = s.sh_lock + 1 })
step ex_acquire s = guard (leb 1 s.at_ex_acquire && leb 1 s.ex_lock) (record s {
  at_ex_acquire = s.at_ex_acquire - 1;
  ex_lock = s.ex_lock - 1;
  writers = s.writers + 1;
})
step begin_ex_release s = guard (leb 1 s.writers && leb 1 s.sh_lock) (record s {
  writers = s.writers - 1;
  sh_lock = s.sh_lock - 1;
  in_ex_release = s.in_ex_release + 1;
})
step ex_release s = guard (leb 1 s.in_ex_release) (
    if s.sh_lock_cnt == 0
    then record s {
      in_ex_release = s.in_ex_release - 1;
      ex_lock = s.ex_lock + 1;
      at_ex_post = s.at_ex_post + 1;
    }
    else record s { in_ex_release = s.in_ex_release - 1; sh_lock = s.sh_lock + 1 })
step ex_post s =
    guard (leb 1 s.at_ex_post) (record s { at_ex_post = s.at_ex_post - 1; sh_lock = s.sh_lock + 1 })

unfoldable pub run_on : (Lock → Option Lock) → Option Lock → Option Lock
run_on go none = none
run_on go (some s) = go s

-- A sequence of steps.
unfoldable pub run : List Action → Lock → Option Lock
run [] s = some s
run (a ∷ acts) s = run_on (run acts) (step a s)
