-- ===== src/Watch/Tests.antt =====
-- A gateway that counts, and one that does not.
use kappaio.Common.{ℕ, ◌*◌, ◌+◌, ◌≤◌, ◌≡◌, refl, [], ◌∷◌, some, arith, replicate}
use kappaio.Watch.{
  Files, Stat, found, no_entry, KeepAlive, count, Watch, start, restarts, check_by_pid_file,
  read_kla, turn,
}
use kappaio.Watch.Laws.{restarts-Alive, restarts-stopped}

abbrev at : ℕ → Files
at k = record { pid_file = some 77; proc = λ pid. found; kla_file = some (count k) }

restarts-Alive_example : restarts start (at 4 ∷ at 5 ∷ at 7 ∷ []) ≡ 0
unfolding start check_by_pid_file kappaio.Watch.check_pid kappaio.Watch.exists read_kla
    kappaio.Watch.counter
restarts-Alive_example = restarts-Alive (at 4 ∷ at 5 ∷ at 7 ∷ []) start (
  4,
  (refl, refl),
  (λ e. omega arith),
  (5, (refl, refl), (λ e. omega arith), (7, (refl, refl), (λ e. omega arith), tt)),
)

restarts-stopped_example : 3 ≤ 2 * restarts start (replicate 3 (at 4)) + 2
unfolding check_by_pid_file kappaio.Watch.check_pid kappaio.Watch.exists read_kla
    kappaio.Watch.counter
restarts-stopped_example =
    restarts-stopped 4 (replicate 3 (at 4)) start ((refl, refl), ((refl, refl), ((refl, refl), tt)))

-- The process of the PID file has gone.
dead_restarts :
    restarts start
      (record { pid_file = some 77; proc = λ pid. no_entry; kla_file = some (count 4) } ∷ [])
    ≡ 1
unfolding restarts turn check_by_pid_file kappaio.Watch.check_pid kappaio.Watch.exists
dead_restarts = refl
