-- ===== src/Util/Lock/Tests.antt =====
-- Two readers and a writer.
use kappaio.Common.{◌+◌, ◌≤◌, ◌≡◌, ◌≢◌, refl, List, [], ◌∷◌, none, some, arith}
use kappaio.Util.Lock.{
  Lock, klock, Action, call_sh, call_ex, enter, try_ex, wait_count, count, wait_ex, wait_first,
  first, leave, begin_sh_release, sh_release, ex_acquire, begin_ex_release, ex_release, step, run,
}
use kappaio.Util.Lock.Laws.{run-exclusion}
use kappaio.Util.Lock.Progress.{active, run-no_deadlock}

-- The second reader finds `exLock` taken, and the count above 0.
abbrev two_readers : List Action
two_readers =
    call_sh ∷ enter ∷ try_ex ∷ wait_first ∷ first ∷ leave ∷ call_sh ∷ enter ∷ try_ex ∷ wait_count
    ∷ count ∷ leave ∷ []

abbrev shared : Lock
shared = record klock { ex_lock = 0; sh_lock_cnt = 2; readers = 2 }

run-two_readers : run two_readers klock ≡ some shared
unfolding run kappaio.Util.Lock.run_on step klock
run-two_readers = refl

run-exclusion_example :
    (shared.writers + shared.in_ex_release ≤ 1)
    × (1 ≤ shared.readers + shared.in_sh_release → shared.writers + shared.in_ex_release ≡ 0)
run-exclusion_example = run-exclusion two_readers shared run-two_readers

-- No writer comes in meanwhile; when both readers have left, one does.
no_writer : step ex_acquire shared ≡ none
unfolding step klock
no_writer = refl

shared-active : 1 ≤ active shared
unfolding active klock
shared-active = omega arith

run-no_deadlock_example :
    (a : Action) × (s' : Lock) × (step a shared ≡ some s') × (a ≢ call_sh) × (a ≢ call_ex)
run-no_deadlock_example = run-no_deadlock two_readers shared run-two_readers shared-active
