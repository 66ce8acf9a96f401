-- ===== src/Aps/DataService/Wait.antt =====
-- A request that waits for its answer: the other receivers are served as if it were not there.
use kappaio.Common.{
  ℕ, ◌≡◌, refl, Bool, true, false, List, [], ◌∷◌, ◌++◌, append_assoc, Option, some, ==_iff,
}
use kappaio.Common.Words.{All}
use kappaio.Aps.DataService.{
  Node, Buffer, receiver_at, register_handlers, arm_at, remove_handler, remove_with, indicate,
  to_receiver, fall_back, aps_message_indicate, indicate_all, is_ready, is_sync, wait_until,
  wait_for, after_delivery, finish, request,
}

-- No message of the list is the answer.
abbrev pub Others : {M : Type 0} → (M → Bool) → List M → Type 0
Others pred msgs = All (λ msg. pred msg ≡ false) msgs

module _ {M : Type 0} (message_handler : M → Option ℕ) (h cb : ℕ) (pred : M → Bool) where
  -- The request's node while it waits, and after its answer.
  abbrev waiting : Node M
  waiting = record {
    address = h;
    receiver = record { pred = pred; cb = cb; sync = true; rdy = false };
  }

  abbrev answered : Node M
  answered = record {
    address = h;
    receiver = record { pred = pred; cb = cb; sync = false; rdy = true };
  }

  front : (n : Node M) (ns : Buffer M) → n.address ≡ h → receiver_at h (n ∷ ns) ≡ some n.receiver
  unfolding receiver_at
  front n ns e = rw ((==_iff n.address h).1 e)

  remove-front : (n : Node M) (ns : Buffer M) → n.address ≡ h → remove_handler h (n ∷ ns) ≡ some ns
  unfolding remove_handler remove_with
  remove-front n ns e = rw (front n ns e, (==_iff n.address h).1 e)

  registered : (ns : Buffer M) → arm_at h (register_handlers h pred cb ns) ≡ waiting ∷ ns
  unfolding arm_at register_handlers
  registered ns = rw ((==_iff h h).1 refl)

  miss :
      (msg : M) (ns : Buffer M)
      → pred msg ≡ false
      → aps_message_indicate message_handler (waiting ∷ ns) msg ≡ (
        waiting ∷ (aps_message_indicate message_handler ns msg).0,
        (aps_message_indicate message_handler ns msg).1,
      )
  unfolding aps_message_indicate indicate
  miss msg ns e = rw e

  hit :
      (msg : M) (ns : Buffer M)
      → pred msg ≡ true
      → aps_message_indicate message_handler (waiting ∷ ns) msg ≡ (answered ∷ ns, to_receiver cb)
  unfolding aps_message_indicate indicate fall_back
  hit msg ns e = rw e

  -- Messages for others pass by the waiting node.
  indicate_all-miss :
      (msgs : List M) (ns : Buffer M)
      → Others pred msgs
      → indicate_all message_handler (waiting ∷ ns) msgs ≡ (
        waiting ∷ (indicate_all message_handler ns msgs).0,
        (indicate_all message_handler ns msgs).1,
      )
  unfolding indicate_all
  indicate_all-miss [] ns o = refl
  indicate_all-miss (msg ∷ msgs) ns o =
      rw (
        miss msg ns o.0,
        indicate_all-miss msgs (aps_message_indicate message_handler ns msg).0 o.1,
      )

  pub indicate_all-append :
      (xs ys : List M) (ns : Buffer M)
      → indicate_all message_handler ns (xs ++ ys) ≡ (
        (indicate_all message_handler (indicate_all message_handler ns xs).0 ys).0,
        (indicate_all message_handler ns xs).1
            ++ (indicate_all message_handler (indicate_all message_handler ns xs).0 ys).1,
      )
  unfolding indicate_all
  indicate_all-append [] ys ns = refl
  indicate_all-append (x ∷ xs) ys ns =
      rw (indicate_all-append xs ys (aps_message_indicate message_handler ns x).0)

  wait_until-ready :
      (msgs : List M) (ns : Buffer M)
      → wait_until message_handler h (answered ∷ ns) msgs
        ≡ record { buffer = answered ∷ ns; deliveries = []; left = msgs; ready = true }
  unfolding wait_until is_ready
  wait_until-ready [] ns = rw (front answered ns refl)
  wait_until-ready (msg ∷ msgs) ns = rw (front answered ns refl)

  -- The wait ends with the answer.
  wait_until-answer :
      (msgs after : List M) (answer : M) (ns : Buffer M)
      → Others pred msgs
      → pred answer ≡ true
      → wait_until message_handler h (waiting ∷ ns) (msgs ++ (answer ∷ after)) ≡ record {
        buffer = answered ∷ (indicate_all message_handler ns msgs).0;
        deliveries = (indicate_all message_handler ns msgs).1 ++ (to_receiver cb ∷ []);
        left = after;
        ready = true;
      }
  unfolding wait_until indicate_all is_ready after_delivery
  wait_until-answer [] after answer ns o e =
      rw (hit answer ns e, front waiting ns refl, wait_until-ready after ns)
  wait_until-answer (msg ∷ msgs) after answer ns o e = rw (
    miss msg ns o.0,
    front waiting ns refl,
    wait_until-answer msgs after answer (aps_message_indicate message_handler ns msg).0 o.1 e,
  )

  wait_until-timeout :
      (msgs : List M) (ns : Buffer M)
      → Others pred msgs
      → wait_until message_handler h (waiting ∷ ns) msgs ≡ record {
        buffer = waiting ∷ (indicate_all message_handler ns msgs).0;
        deliveries = (indicate_all message_handler ns msgs).1;
        left = [];
        ready = false;
      }
  unfolding wait_until indicate_all is_ready after_delivery
  wait_until-timeout [] ns o = rw (front waiting ns refl)
  wait_until-timeout (msg ∷ msgs) ns o = rw (
    miss msg ns o.0,
    front waiting ns refl,
    wait_until-timeout msgs (aps_message_indicate message_handler ns msg).0 o.1,
  )

  wait_for-waiting :
      (msgs : List M) (ns : Buffer M)
      → wait_for message_handler h (waiting ∷ ns) msgs
        ≡ wait_until message_handler h (waiting ∷ ns) msgs
  unfolding wait_for is_sync
  wait_for-waiting msgs ns = rw (front waiting ns refl)

  wait_for-answered :
      (msgs : List M) (ns : Buffer M)
      → wait_for message_handler h (answered ∷ ns) msgs
        ≡ record { buffer = answered ∷ ns; deliveries = []; left = msgs; ready = false }
  unfolding wait_for is_sync
  wait_for-answered msgs ns = rw (front answered ns refl)

  -- A request whose answer is the first message, since it waits, that its predicate accepts: each earlier
  -- message goes where it would go without the request, the answer goes to the request's callback,
  -- and no later message is waited for. The other receivers are left as the earlier messages
  -- alone leave them, and the request's own is gone.
  pub request-answered :
      (early before after : List M) (answer : M) (ns : Buffer M)
      → Others pred early
      → Others pred before
      → pred answer ≡ true
      → request message_handler h ns pred cb early (before ++ (answer ∷ after))
        ≡ some (
          (indicate_all message_handler ns (early ++ before)).0,
          (indicate_all message_handler ns (early ++ before)).1 ++ (to_receiver cb ∷ []),
          after,
        )
  unfolding request finish
  request-answered early before after answer ns oe ob e =
      let ns' = (indicate_all message_handler ns early).0 in
      let ds = (indicate_all message_handler ns early).1 in
      let w = indicate_all message_handler ns' before in
      rw (
        registered ns,
        indicate_all-miss early ns oe,
        wait_for-waiting (before ++ (answer ∷ after)) ns',
        wait_until-answer before after answer ns' ob e,
        remove-front answered w.0 refl,
        indicate_all-append early before ns,
        append_assoc ds w.1 (to_receiver cb ∷ []),
      )

  -- A request without an answer: after the timeout its receiver is gone, and every message went
  -- where it would go without the request.
  pub request-timeout :
      (early late : List M) (ns : Buffer M)
      → Others pred early
      → Others pred late
      → request message_handler h ns pred cb early late
        ≡ some (
          (indicate_all message_handler ns (early ++ late)).0,
          (indicate_all message_handler ns (early ++ late)).1,
          [],
        )
  unfolding request finish
  request-timeout early late ns oe ol =
      let ns' = (indicate_all message_handler ns early).0 in
      rw (
        registered ns,
        indicate_all-miss early ns oe,
        wait_for-waiting late ns',
        wait_until-timeout late ns' ol,
        remove-front waiting (indicate_all message_handler ns' late).0 refl,
        indicate_all-append early late ns,
      )
