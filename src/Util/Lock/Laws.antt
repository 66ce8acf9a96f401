-- ===== src/Util/Lock/Laws.antt =====
-- Readers and writers exclude each other.
use kappaio.Common.{
  ℕ, ◌+◌, ◌≤◌, ◌<◌, ◌≡◌, refl, subst, min, Bool, true, false, List, [], ◌∷◌, Option, none, some,
  leb, ◌==◌, if◌then◌else◌, arith, and_true, ==_iff, ◌≢◌,
}
use kappaio.Util.Lock.{
  Lock, klock, Action, call_sh, call_ex, enter, try_ex, wait_count, count, wait_ex, wait_first,
  first, leave, begin_sh_release, sh_release, sh_post, ex_acquire, begin_ex_release, ex_release,
  ex_post, guard, step, run, run_on,
}

-- Each semaphore is free or held by one thread; `ex_lock` is held by a writer, by the first reader on its way,
-- or by the readers together, whom `sh_lock_cnt` counts.
pub record IsValid (s : Lock) : Type 0 where
  pub priv_once :
      s.sh_lock_priv
        + (s.at_try + s.at_count + s.in_count + s.at_ex + s.at_first + s.in_first + s.at_end)
      ≡ 1
  pub sh_once :
      s.sh_lock
        + (s.in_count + s.in_first + s.in_sh_release + s.in_ex_release + s.at_sh_post
            + s.at_ex_post)
      ≡ 1
  pub ex_once :
      s.ex_lock + (s.writers + s.in_ex_release + s.at_first + s.in_first + min s.sh_lock_cnt 1) ≡ 1
  pub counted : s.sh_lock_cnt ≡ s.at_end + s.readers + s.in_sh_release

abbrev pub Valid : Option Lock → Type 0
Valid none = Unit
Valid (some s) = IsValid s

pub leb→le : (a b : ℕ) → leb a b ≡ true → a ≤ b
leb→le a b h = ground arith

pub leb→gt : (a b : ℕ) → leb a b ≡ false → b < a
leb→gt a b h = ground arith

==_false : (a b : ℕ) → (a == b) ≡ false → a ≢ b
==_false a b h = ground arith

guard-Valid : (b : Bool) (s : Lock) → (b ≡ true → IsValid s) → Valid (guard b s)
guard-Valid true s h = h refl
guard-Valid false s h = tt

if-IsValid :
    (b : Bool) (s s' : Lock)
    → (b ≡ true → IsValid s)
    → (b ≡ false → IsValid s')
    → IsValid (if b then s else s')
if-IsValid true s s' h h' = h refl
if-IsValid false s s' h h' = h' refl

pub klock-IsValid : IsValid klock
unfolding klock
klock-IsValid = record { priv_once = refl; sh_once = refl; ex_once = refl; counted = refl }

step-Valid : (a : Action) (s : Lock) → IsValid s → Valid (step a s)
unfolding step
step-Valid call_sh s v = record {
  priv_once = v.priv_once;
  sh_once = v.sh_once;
  ex_once = v.ex_once;
  counted = v.counted;
}
step-Valid call_ex s v = record {
  priv_once = v.priv_once;
  sh_once = v.sh_once;
  ex_once = v.ex_once;
  counted = v.counted;
}
step-Valid enter s v = guard-Valid _ _ (λ e.
    let b = and_true (leb 1 s.at_priv) (leb 1 s.sh_lock_priv) e in
    let l = leb→le 1 s.at_priv b.0 in
    let m = leb→le 1 s.sh_lock_priv b.1 in
    record {
      priv_once = omega (arith, v.priv_once, l, m);
      sh_once = omega (arith, v.sh_once, l, m);
      ex_once = omega (arith, v.ex_once, v.counted, l, m);
      counted = omega (arith, v.counted, l, m);
    })
step-Valid try_ex s v = guard-Valid _ _ (λ e.
    let l = leb→le 1 s.at_try e in
    if-IsValid _ _ _
      (λ c.
        let h = leb→le 1 s.ex_lock c in
        record {
          priv_once = omega (arith, v.priv_once, l);
          sh_once = omega (arith, v.sh_once, l, h);
          ex_once = omega (arith, v.ex_once, v.counted, v.sh_once, l, h);
          counted = omega (arith, v.ex_once, v.counted, v.sh_once, l, h);
        })
      (λ c.
        let h = leb→gt 1 s.ex_lock c in
        record {
          priv_once = omega (arith, v.priv_once, l);
          sh_once = omega (arith, v.sh_once, l, h);
          ex_once = omega (arith, v.ex_once, v.counted, v.sh_once, l, h);
          counted = omega (arith, v.ex_once, v.counted, v.sh_once, l, h);
        }))
step-Valid wait_count s v = guard-Valid _ _ (λ e.
    let b = and_true (leb 1 s.at_count) (leb 1 s.sh_lock) e in
    let l = leb→le 1 s.at_count b.0 in
    let m = leb→le 1 s.sh_lock b.1 in
    record {
      priv_once = omega (arith, v.priv_once, l, m);
      sh_once = omega (arith, v.sh_once, l, m);
      ex_once = omega (arith, v.ex_once, v.counted, l, m);
      counted = omega (arith, v.counted, l, m);
    })
step-Valid count s v = guard-Valid _ _ (λ e.
    let l = leb→le 1 s.in_count e in
    if-IsValid _ _ _
      (λ c.
        let h = (==_iff s.sh_lock_cnt 0).0 c in
        record {
          priv_once = omega (arith, v.priv_once, l);
          sh_once = omega (arith, v.sh_once, l, h);
          ex_once = omega (arith, v.ex_once, v.counted, v.sh_once, l, h);
          counted = omega (arith, v.ex_once, v.counted, v.sh_once, l, h);
        })
      (λ c.
        let h = ==_false s.sh_lock_cnt 0 c in
        record {
          priv_once = omega (arith, v.priv_once, l);
          sh_once = omega (arith, v.sh_once, l, h);
          ex_once = omega (arith, v.ex_once, v.counted, v.sh_once, l, h);
          counted = omega (arith, v.ex_once, v.counted, v.sh_once, l, h);
        }))
step-Valid wait_ex s v = guard-Valid _ _ (λ e.
    let b = and_true (leb 1 s.at_ex) (leb 1 s.ex_lock) e in
    let l = leb→le 1 s.at_ex b.0 in
    let m = leb→le 1 s.ex_lock b.1 in
    record {
      priv_once = omega (arith, v.priv_once, l, m);
      sh_once = omega (arith, v.sh_once, l, m);
      ex_once = omega (arith, v.ex_once, v.counted, l, m);
      counted = omega (arith, v.counted, l, m);
    })
step-Valid wait_first s v = guard-Valid _ _ (λ e.
    let b = and_true (leb 1 s.at_first) (leb 1 s.sh_lock) e in
    let l = leb→le 1 s.at_first b.0 in
    let m = leb→le 1 s.sh_lock b.1 in
    record {
      priv_once = omega (arith, v.priv_once, l, m);
      sh_once = omega (arith, v.sh_once, l, m);
      ex_once = omega (arith, v.ex_once, v.counted, l, m);
      counted = omega (arith, v.counted, l, m);
    })
step-Valid first s v = guard-Valid _ _ (λ e.
    let l = leb→le 1 s.in_first e in
    record {
      priv_once = omega (arith, v.priv_once, l);
      sh_once = omega (arith, v.sh_once, l);
      ex_once = omega (arith, v.ex_once, v.counted, l);
      counted = omega (arith, v.counted, l);
    })
step-Valid leave s v = guard-Valid _ _ (λ e.
    let l = leb→le 1 s.at_end e in
    record {
      priv_once = omega (arith, v.priv_once, l);
      sh_once = omega (arith, v.sh_once, l);
      ex_once = omega (arith, v.ex_once, v.counted, l);
      counted = omega (arith, v.counted, l);
    })
step-Valid begin_sh_release s v = guard-Valid _ _ (λ e.
    let b = and_true (leb 1 s.readers) (leb 1 s.sh_lock) e in
    let l = leb→le 1 s.readers b.0 in
    let m = leb→le 1 s.sh_lock b.1 in
    record {
      priv_once = omega (arith, v.priv_once, l, m);
      sh_once = omega (arith, v.sh_once, l, m);
      ex_once = omega (arith, v.ex_once, v.counted, l, m);
      counted = omega (arith, v.counted, l, m);
    })
step-Valid sh_release s v = guard-Valid _ _ (λ e.
    let l = leb→le 1 s.in_sh_release e in
    if-IsValid _ _ _
      (λ c.
        let h = (==_iff s.sh_lock_cnt 1).0 c in
        record {
          priv_once = omega (arith, v.priv_once, l);
          sh_once = omega (arith, v.sh_once, l, h);
          ex_once = omega (arith, v.ex_once, v.counted, v.sh_once, l, h);
          counted = omega (arith, v.ex_once, v.counted, v.sh_once, l, h);
        })
      (λ c.
        let h = ==_false s.sh_lock_cnt 1 c in
        record {
          priv_once = omega (arith, v.priv_once, l);
          sh_once = omega (arith, v.sh_once, l, h);
          ex_once = omega (arith, v.ex_once, v.counted, v.sh_once, l, h);
          counted = omega (arith, v.ex_once, v.counted, v.sh_once, l, h);
        }))
step-Valid sh_post s v = guard-Valid _ _ (λ e.
    let l = leb→le 1 s.at_sh_post e in
    record {
      priv_once = omega (arith, v.priv_once, l);
      sh_once = omega (arith, v.sh_once, l);
      ex_once = omega (arith, v.ex_once, v.counted, l);
      counted = omega (arith, v.counted, l);
    })
step-Valid ex_acquire s v = guard-Valid _ _ (λ e.
    let b = and_true (leb 1 s.at_ex_acquire) (leb 1 s.ex_lock) e in
    let l = leb→le 1 s.at_ex_acquire b.0 in
    let m = leb→le 1 s.ex_lock b.1 in
    record {
      priv_once = omega (arith, v.priv_once, l, m);
      sh_once = omega (arith, v.sh_once, l, m);
      ex_once = omega (arith, v.ex_once, v.counted, l, m);
      counted = omega (arith, v.counted, l, m);
    })
step-Valid begin_ex_release s v = guard-Valid _ _ (λ e.
    let b = and_true (leb 1 s.writers) (leb 1 s.sh_lock) e in
    let l = leb→le 1 s.writers b.0 in
    let m = leb→le 1 s.sh_lock b.1 in
    record {
      priv_once = omega (arith, v.priv_once, l, m);
      sh_once = omega (arith, v.sh_once, l, m);
      ex_once = omega (arith, v.ex_once, v.counted, l, m);
      counted = omega (arith, v.counted, l, m);
    })
step-Valid ex_release s v = guard-Valid _ _ (λ e.
    let l = leb→le 1 s.in_ex_release e in
    if-IsValid _ _ _
      (λ c.
        let h = (==_iff s.sh_lock_cnt 0).0 c in
        record {
          priv_once = omega (arith, v.priv_once, l);
          sh_once = omega (arith, v.sh_once, l, h);
          ex_once = omega (arith, v.ex_once, v.counted, v.sh_once, l, h);
          counted = omega (arith, v.ex_once, v.counted, v.sh_once, l, h);
        })
      (λ c.
        let h = ==_false s.sh_lock_cnt 0 c in
        record {
          priv_once = omega (arith, v.priv_once, l);
          sh_once = omega (arith, v.sh_once, l, h);
          ex_once = omega (arith, v.ex_once, v.counted, v.sh_once, l, h);
          counted = omega (arith, v.ex_once, v.counted, v.sh_once, l, h);
        }))
step-Valid ex_post s v = guard-Valid _ _ (λ e.
    let l = leb→le 1 s.at_ex_post e in
    record {
      priv_once = omega (arith, v.priv_once, l);
      sh_once = omega (arith, v.sh_once, l);
      ex_once = omega (arith, v.ex_once, v.counted, l);
      counted = omega (arith, v.counted, l);
    })

run_on-Valid :
    (go : Lock → Option Lock) (o : Option Lock)
    → Valid o
    → ((s : Lock) → IsValid s → Valid (go s))
    → Valid (run_on go o)
unfolding run_on
run_on-Valid go none v h = tt
run_on-Valid go (some s) v h = h s v

run-Valid : (acts : List Action) (s : Lock) → IsValid s → Valid (run acts s)
unfolding run
run-Valid [] s v = v
run-Valid (a ∷ acts) s v =
    run_on-Valid (run acts) (step a s) (step-Valid a s v) (λ s' v'. run-Valid acts s' v')

pub reached : (acts : List Action) (s : Lock) → run acts klock ≡ some s → IsValid s
reached acts s e = subst Valid e (run-Valid acts klock klock-IsValid)

-- After any steps of any number of threads, there is at most one writer, counting one that is inside
-- `exLockRelease` and has not yet posted `exLock`, and none as long as there is a reader, counting those inside
-- `shLockRelease` that have not yet lowered the count.
pub run-exclusion :
    (acts : List Action) (s : Lock)
    → run acts klock ≡ some s
    → (s.writers + s.in_ex_release ≤ 1)
      × (1 ≤ s.readers + s.in_sh_release → s.writers + s.in_ex_release ≡ 0)
run-exclusion acts s e =
    let v = reached acts s e in
    (omega (arith, v.ex_once), (λ h. omega (arith, v.ex_once, v.counted, h)))
