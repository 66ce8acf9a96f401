-- ===== src/Serial/Dispatch/Laws.antt =====
-- Registration and dispatch agree.
use kappaio.Common.{
  ℕ, ◌<◌, ◌≤◌, ◌≡◌, refl, ap, sym, ◌∙◌, Bool, true, false, List, Option, none, some, get_or, set,
  length, length-set, get_or-set_self, get_or-set_ne, ltb, ◌==◌, if◌then◌else◌, arith, ltb→lt,
  lt→ltb, le→ltb, Bool-cases, inl, inr, ==_iff,
}
use kappaio.Serial.Dispatch.{
  Handler, Table, handled, process_incoming, call, mt_oob_recv, subsystem_of, done, refused,
  out_of_bounds, register_subsystem_cb, put_callback,
}

-- The table has an entry for each subsystem that the dispatcher lets through.
abbrev pub IsFull : Table → Type 0
IsFull table = length table ≡ 15

-- A packet that passes the length and subsystem checks, and is no answer to a watchdog kick.
pub record IsPlain (pkt : List ℕ) : Type 0 where
  pub short : get_or pkt 0 0 ≤ 250
  pub known : subsystem_of (get_or pkt 1 0) < 14
  pub in_band : mt_oob_recv pkt ≡ false

pub process_incoming-plain :
    (table : Table) (pkt : List ℕ)
    → IsPlain pkt
    → process_incoming table pkt ≡ call (get_or table (subsystem_of (get_or pkt 1 0)) none)
unfolding process_incoming
process_incoming-plain table pkt p = rw (
  le→ltb 250 (get_or pkt 0 0) p.short,
  lt→ltb (subsystem_of (get_or pkt 1 0)) 14 p.known,
  p.in_band,
)

get_or-set_if :
    (table : Table) (i j : ℕ) (v d : Option Handler)
    → i < length table
    → get_or (set table i v) j d ≡ (if j == i then v else get_or table j d)
get_or-set_if table i j v d h = elim (Bool-cases (j == i)) [
  | inl e ↦
      rw e (ap (λ k. get_or (set table i v) k d) ((==_iff j i).0 e) ∙ get_or-set_self table i v d h)
  | inr e ↦ rw e (get_or-set_ne table i j v d (λ same. cc ((==_iff j i).1 (sym same))))
]

call_if :
    (b : Bool) (x y : Option Handler) → call (if b then x else y) ≡ (if b then call x else call y)
call_if true x y = refl
call_if false x y = refl

-- `registerSubsystemCb` on a full table: a free entry below 14 is taken, and the table stays full. Of the packets whose
-- length byte is at most 250, whose subsystem is below 14 and that are not the answer to a kick of the watchdog, those
-- of that subsystem go to the new function and those of every other subsystem go where they went.
pub register-process :
    (table : Table) (subsystem : ℕ) (h : Handler)
    → IsFull table
    → subsystem < 14
    → get_or table subsystem none ≡ none
    → (table' : Table) × (register_subsystem_cb table subsystem h ≡ done table')
      × IsFull table'
      × ((pkt : List ℕ)
          → IsPlain pkt
          → process_incoming table' pkt ≡ (
              if subsystem_of (get_or pkt 1 0) == subsystem
              then handled h
              else process_incoming table pkt))
unfolding register_subsystem_cb put_callback call
register-process table subsystem h full small free = (
  set table subsystem (some h),
  rw (lt→ltb subsystem (length table) (omega arith), free, put_callback),
  length-set table subsystem (some h) ∙ full,
  routes,
)
  where
    table' : Table
    table' = set table subsystem (some h)

    entry :
        (s : ℕ)
        → call (get_or table' s none)
          ≡ (if s == subsystem then handled h else call (get_or table s none))
    entry s =
        ap call (get_or-set_if table subsystem s (some h) none (omega arith))
        ∙ call_if (s == subsystem) (some h) (get_or table s none)

    routes :
        (pkt : List ℕ)
        → IsPlain pkt
        → process_incoming table' pkt ≡ (
            if subsystem_of (get_or pkt 1 0) == subsystem
            then handled h
            else process_incoming table pkt)
    routes pkt p =
        rw (process_incoming-plain table' pkt p, process_incoming-plain table pkt p)
          (entry (subsystem_of (get_or pkt 1 0)))

put_callback-done :
    (table table' : Table) (subsystem : ℕ) (h : Handler) (old : Option Handler)
    → put_callback table subsystem h old ≡ done table'
    → table' ≡ set table subsystem (some h)
unfolding put_callback
put_callback-done table table' subsystem h none e = cc
put_callback-done table table' subsystem h (some old) e = cc

register-done :
    (table table' : Table) (subsystem : ℕ) (h : Handler)
    → register_subsystem_cb table subsystem h ≡ done table'
    → (subsystem < length table) × (table' ≡ set table subsystem (some h))
unfolding register_subsystem_cb
register-done table table' subsystem h e = elim (Bool-cases (ltb subsystem (length table))) [
  | inl inside ↦ (
    ltb→lt subsystem (length table) inside,
    put_callback-done table table' subsystem h (get_or table subsystem none) (sym (rw inside) ∙ e),
  )
  | inr outside ↦ absurd (no_table (sym (rw outside) ∙ e))
]
  where
    no_table : out_of_bounds ≡ done table' → ⊥
    no_table h = cc

-- An entry that is taken stays: whatever registration took it, the next one of that subsystem is
-- refused.
pub register-again :
    (table table' : Table) (subsystem : ℕ) (h h' : Handler)
    → register_subsystem_cb table subsystem h ≡ done table'
    → register_subsystem_cb table' subsystem h' ≡ refused
unfolding register_subsystem_cb put_callback
register-again table table' subsystem h h' e = rw (register-done table table' subsystem h e).1 (
    rw (
      length-set table subsystem (some h),
      lt→ltb subsystem (length table) (register-done table table' subsystem h e).0,
      get_or-set_self table subsystem (some h) none (register-done table table' subsystem h e).0,
    ))
