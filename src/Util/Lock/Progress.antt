-- ===== src/Util/Lock/Progress.antt =====
-- The lock has no deadlock.
use kappaio.Common.{
  ℕ, ◌+◌, ◌≤◌, ◌≡◌, Bool, true, ◌&&◌, List, some, leb, arith, Bool-cases, inl, inr, ◌≢◌, ◌⊎◌,
}
use kappaio.Util.Lock.{
  Lock, klock, Action, call_sh, call_ex, enter, try_ex, wait_count, count, wait_ex, wait_first,
  first, leave, begin_sh_release, sh_release, sh_post, ex_acquire, begin_ex_release, ex_release,
  ex_post, guard, step, run,
}
use kappaio.Util.Lock.Laws.{reached, leb→le, leb→gt}

-- The threads that are in one of the functions, or hold the lock.
unfoldable pub active : Lock → ℕ
active s =
    s.at_priv + s.at_try + s.at_count + s.in_count + s.at_ex + s.at_first + s.in_first + s.at_end
    + s.readers + s.in_sh_release + s.at_sh_post + s.at_ex_acquire + s.writers + s.in_ex_release
    + s.at_ex_post

abbrev CanStep : Lock → Type 0
CanStep s = (a : Action) × (s' : Lock) × (step a s ≡ some s') × (a ≢ call_sh) × (a ≢ call_ex)

guard_holds : (b : Bool) (s : Lock) → b ≡ true → guard b s ≡ some s
guard_holds b s h = rw (h)

both : (a b c d : ℕ) → a ≤ b → c ≤ d → (leb a b && leb c d) ≡ true
both a b c d h k = ground arith

no_busy :
    (s : Lock)
    → (s.at_try + s.in_count + s.in_first + s.at_end + s.in_sh_release + s.in_ex_release
          + s.at_sh_post + s.at_ex_post
        ≡ 0)
      ⊎ CanStep s
unfolding step
no_busy s = elim (Bool-cases (leb 1 s.at_try)) [
  | inl h ↦ inr (try_ex, _, guard_holds _ _ h, (λ k. cc), (λ k. cc))
  | inr n0 ↦ elim (Bool-cases (leb 1 s.in_count)) [
    | inl h ↦ inr (count, _, guard_holds _ _ h, (λ k. cc), (λ k. cc))
    | inr n1 ↦ elim (Bool-cases (leb 1 s.in_first)) [
      | inl h ↦ inr (first, _, guard_holds _ _ h, (λ k. cc), (λ k. cc))
      | inr n2 ↦ elim (Bool-cases (leb 1 s.at_end)) [
        | inl h ↦ inr (leave, _, guard_holds _ _ h, (λ k. cc), (λ k. cc))
        | inr n3 ↦ elim (Bool-cases (leb 1 s.in_sh_release)) [
          | inl h ↦ inr (sh_release, _, guard_holds _ _ h, (λ k. cc), (λ k. cc))
          | inr n4 ↦ elim (Bool-cases (leb 1 s.in_ex_release)) [
            | inl h ↦ inr (ex_release, _, guard_holds _ _ h, (λ k. cc), (λ k. cc))
            | inr n5 ↦ elim (Bool-cases (leb 1 s.at_sh_post)) [
              | inl h ↦ inr (sh_post, _, guard_holds _ _ h, (λ k. cc), (λ k. cc))
              | inr n6 ↦ elim (Bool-cases (leb 1 s.at_ex_post)) [
                | inl h ↦ inr (ex_post, _, guard_holds _ _ h, (λ k. cc), (λ k. cc))
                | inr n7 ↦ inl (
                    omega (
                      arith,
                      leb→gt 1 s.at_try n0,
                      leb→gt 1 s.in_count n1,
                      leb→gt 1 s.in_first n2,
                      leb→gt 1 s.at_end n3,
                      leb→gt 1 s.in_sh_release n4,
                      leb→gt 1 s.in_ex_release n5,
                      leb→gt 1 s.at_sh_post n6,
                      leb→gt 1 s.at_ex_post n7,
                    ))
              ]
            ]
          ]
        ]
      ]
    ]
  ]
]

no_waiting :
    (s : Lock) → 1 ≤ s.sh_lock → (s.at_count + s.at_first + s.readers + s.writers ≡ 0) ⊎ CanStep s
unfolding step
no_waiting s free = elim (Bool-cases (leb 1 s.at_count)) [
  | inl h ↦ inr (
    wait_count,
    _,
    guard_holds _ _ (both 1 s.at_count 1 s.sh_lock (leb→le 1 s.at_count h) free),
    (λ k. cc),
    (λ k. cc),
  )
  | inr n0 ↦ elim (Bool-cases (leb 1 s.at_first)) [
    | inl h ↦ inr (
      wait_first,
      _,
      guard_holds _ _ (both 1 s.at_first 1 s.sh_lock (leb→le 1 s.at_first h) free),
      (λ k. cc),
      (λ k. cc),
    )
    | inr n1 ↦ elim (Bool-cases (leb 1 s.readers)) [
      | inl h ↦ inr (
        begin_sh_release,
        _,
        guard_holds _ _ (both 1 s.readers 1 s.sh_lock (leb→le 1 s.readers h) free),
        (λ k. cc),
        (λ k. cc),
      )
      | inr n2 ↦ elim (Bool-cases (leb 1 s.writers)) [
        | inl h ↦ inr (
          begin_ex_release,
          _,
          guard_holds _ _ (both 1 s.writers 1 s.sh_lock (leb→le 1 s.writers h) free),
          (λ k. cc),
          (λ k. cc),
        )
        | inr n3 ↦ inl (
            omega (
              arith,
              leb→gt 1 s.at_count n0,
              leb→gt 1 s.at_first n1,
              leb→gt 1 s.readers n2,
              leb→gt 1 s.writers n3,
            ))
      ]
    ]
  ]
]

-- With `exLock` and `shLockPriv` free, a thread that waits for one of them can take it.
at_sem_steps :
    (s : Lock)
    → 1 ≤ s.ex_lock
    → 1 ≤ s.at_ex + s.at_ex_acquire + s.at_priv
    → (s.at_ex + s.at_ex_acquire ≡ 0 → 1 ≤ s.sh_lock_priv)
    → CanStep s
unfolding step
at_sem_steps s free waits priv_free = elim (Bool-cases (leb 1 s.at_ex)) [
  | inl h ↦ (
    wait_ex,
    _,
    guard_holds _ _ (both 1 s.at_ex 1 s.ex_lock (leb→le 1 s.at_ex h) free),
    (λ k. cc),
    (λ k. cc),
  )
  | inr n0 ↦ elim (Bool-cases (leb 1 s.at_ex_acquire)) [
    | inl h ↦ (
      ex_acquire,
      _,
      guard_holds _ _ (both 1 s.at_ex_acquire 1 s.ex_lock (leb→le 1 s.at_ex_acquire h) free),
      (λ k. cc),
      (λ k. cc),
    )
    | inr n1 ↦
        let none_ex : s.at_ex + s.at_ex_acquire ≡ 0 =
          omega (arith, leb→gt 1 s.at_ex n0, leb→gt 1 s.at_ex_acquire n1) in
        (
          enter,
          _,
          guard_holds _ _ (
              both 1 s.at_priv 1 s.sh_lock_priv (omega (arith, waits, none_ex))
                (priv_free none_ex)),
          (λ k. cc),
          (λ k. cc),
        )
  ]
]

-- There is always a way on: as long as a thread is in one of the functions, waiting for a semaphore or not, or
-- holds the lock, one of these threads can take a step, whatever the others do.
pub run-no_deadlock :
    (acts : List Action) (s : Lock) → run acts klock ≡ some s → 1 ≤ active s → CanStep s
unfolding active
run-no_deadlock acts s e busy =
    let v = reached acts s e in
    elim (no_busy s) [
      | inl quiet ↦ elim (no_waiting s (omega (arith, v.sh_once, quiet))) [
        | inl none_waits ↦
            at_sem_steps s (omega (arith, v.ex_once, v.counted, quiet, none_waits))
              (omega (arith, busy, quiet, none_waits))
              (λ none_ex. omega (arith, v.priv_once, quiet, none_waits, none_ex))
        | inr can ↦ can
      ]
      | inr can ↦ can
    ]
