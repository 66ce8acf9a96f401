-- ===== src/Watch/Laws.antt =====
-- A gateway that counts is left alone, and one that has stopped is restarted.
use kappaio.Common.{
  ℕ, suc, ◌+◌, ◌*◌, ◌≤◌, ◌≡◌, ◌≢◌, refl, Bool, true, false, List, [], ◌∷◌, ltb, lt→ltb, ◌==◌,
  ==_iff, if◌then◌else◌, Bool-cases, inl, inr, arith, length,
}
use kappaio.Common.Words.{All}
use kappaio.Watch.{Files, count, check_by_pid_file, read_kla, Watch, compare_count, turn, restarts}

-- The process runs, and its counter is at a number.
abbrev pub Counts : ℕ → Files → Type 0
Counts k f = (check_by_pid_file f ≡ true) × (read_kla f ≡ count k)

-- In each turn the process runs, and its counter has changed since the turn before.
abbrev pub Alive : ℕ → List Files → Type 0
Alive last [] = Unit
Alive last (f ∷ fs) = (k : ℕ) × Counts k f × (k ≢ last) × Alive k fs

turn-Counts : (w : Watch) (k : ℕ) (f : Files) → Counts k f → turn w f ≡ compare_count w (count k)
unfolding turn
turn-Counts w k f c = rw (c.0, c.1)

differs : (a b : ℕ) → a ≢ b → (a == b) ≡ false
differs a b h = ground arith

compare_count-new :
    (w : Watch) (k : ℕ)
    → k ≢ w.keep_alive_count_ref
    → compare_count w (count k) ≡ (record { keep_alive_count_ref = k; tolerance = 0 }, false)
unfolding compare_count
compare_count-new w k ne = rw (differs k w.keep_alive_count_ref ne)

-- A process that runs, and whose counter moves on from turn to turn, is never restarted.
pub restarts-Alive :
    (fs : List Files) (w : Watch) → Alive w.keep_alive_count_ref fs → restarts w fs ≡ 0
unfolding restarts
restarts-Alive [] w a = refl
restarts-Alive (f ∷ fs) w a =
    rw (turn-Counts w a.0 f a.1, compare_count-new w a.0 a.2)
      (restarts-Alive fs (record { keep_alive_count_ref = a.0; tolerance = 0 }) a.3)

-- The turns that a stopped process still has before a restart: at most two.
abbrev credit : ℕ → Watch → ℕ
credit k w = if k == w.keep_alive_count_ref then (if ltb 0 w.tolerance then 0 else 1) else 2

credit_pays :
    (w : Watch) (k : ℕ)
    → credit k (compare_count w (count k)).0 + 1
      ≤ (if (compare_count w (count k)).1 then 2 else 0) + credit k w
unfolding compare_count
credit_pays w k = elim (Bool-cases (k == w.keep_alive_count_ref)) [
  | inl same ↦ elim (Bool-cases (ltb 0 w.tolerance)) [
    | inl waited ↦ rw (same, waited, same) (omega arith)
    | inr fresh ↦ rw (same, fresh, same, lt→ltb 0 (w.tolerance + 1) (omega arith)) (omega arith)
  ]
  | inr new ↦ rw (new, (==_iff k k).1 refl) (omega arith)
]

one_turn :
    (b : Bool) (n r c c' : ℕ)
    → n ≤ 2 * r + c'
    → c' + 1 ≤ (if b then 2 else 0) + c
    → suc n ≤ 2 * (if b then suc r else r) + c
one_turn true n r c c' h e = omega arith
one_turn false n r c c' h e = omega arith

credit_bound : (k : ℕ) (w : Watch) → credit k w ≤ 2
credit_bound k w = ground arith

restarts-credit :
    (k : ℕ) (fs : List Files) (w : Watch)
    → All (Counts k) fs
    → length fs ≤ 2 * restarts w fs + credit k w
unfolding restarts
restarts-credit k [] w a = omega arith
restarts-credit k (f ∷ fs) w a =
    let t = compare_count w (count k) in
    rw (turn-Counts w k f a.0) (
      one_turn t.1 (length fs) (restarts t.0 fs) (credit k w) (credit k t.0)
        (restarts-credit k fs t.0 a.1) (credit_pays w k))

-- While the process runs, but its counter stands still, `n` turns restart it at least `n / 2 - 1` times,
-- whatever the watchdog has seen before; so the first restart comes within three turns.
pub restarts-stopped :
    (k : ℕ) (fs : List Files) (w : Watch) → All (Counts k) fs → length fs ≤ 2 * restarts w fs + 2
restarts-stopped k fs w a = omega (arith, restarts-credit k fs w a, credit_bound k w)
