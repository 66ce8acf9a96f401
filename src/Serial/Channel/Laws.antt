-- ===== src/Serial/Channel/Laws.antt =====
-- A request gets the first response of its subsystem and command, or times out.
use kappaio.Common.{
  and_true, ℕ, ◌<◌, ◌≡◌, refl, ap, ap₂, sym, ◌∙◌, Bool, true, false, List, [], ◌∷◌, Option, none,
  some, get_or, ◌==◌, if◌then◌else◌, ◌||◌, ◌&&◌, arith, Bool-cases, inl, inr, ==_iff, lt→ltb,
}
use kappaio.Serial.Dispatch.{subsystem_of}
use kappaio.Serial.Channel.{
  Status, failed, ok, Channel, Channels, update, recv_thread, recv_on, mt_recv, send_thread,
  is_failed, sent, open_channel, release, mt_send, is_channel,
}

-- A packet of the subsystem with the command that the request waits for.
abbrev pub answers : ℕ → ℕ → List ℕ → Bool
answers s rsp pkt = (subsystem_of (get_or pkt 1 0) == s) && (get_or pkt 2 0 == rsp)

unfoldable pub first_answer : ℕ → ℕ → List (List ℕ) → Option (List ℕ)
first_answer s rsp [] = none
first_answer s rsp (pkt ∷ pkts) = if answers s rsp pkt then some pkt else first_answer s rsp pkts

first_answer-hit :
    (s rsp : ℕ) (pkt : List ℕ) (pkts : List (List ℕ))
    → answers s rsp pkt ≡ true
    → first_answer s rsp (pkt ∷ pkts) ≡ some pkt
unfolding first_answer
first_answer-hit s rsp pkt pkts h = rw h

first_answer-miss :
    (s rsp : ℕ) (pkt : List ℕ) (pkts : List (List ℕ))
    → answers s rsp pkt ≡ false
    → first_answer s rsp (pkt ∷ pkts) ≡ first_answer s rsp pkts
unfolding first_answer
first_answer-miss s rsp pkt pkts h = rw h

-- The channel of a request when its wait is over.
unfoldable pub outcome : ℕ → Bool → Bool → Option (List ℕ) → Channel
outcome rsp buffer cb none = open_channel rsp buffer cb
outcome rsp buffer cb (some pkt) = (recv_thread (open_channel rsp buffer cb) pkt).0

abbrev pub status_of : Option (List ℕ) → Status
status_of none = failed
status_of (some pkt) = ok

outcome-fields :
    (rsp : ℕ) (buffer cb : Bool) (answer : Option (List ℕ))
    → (buffer || cb) ≡ true
    → ((outcome rsp buffer cb answer).send_status ≡ status_of answer)
      × ((outcome rsp buffer cb answer).given ≡ (if cb then answer else none))
      × ((outcome rsp buffer cb answer).stored ≡ (if cb then none else answer))
unfolding outcome open_channel recv_thread
outcome-fields rsp buffer true none h = (refl, refl, refl)
outcome-fields rsp buffer false none h = (refl, refl, refl)
outcome-fields rsp buffer true (some pkt) h = (refl, refl, refl)
outcome-fields rsp true false (some pkt) h = (refl, refl, refl)
outcome-fields rsp false false (some pkt) h = absurd (cc)

abbrev pub is_none : Option (List ℕ) → Bool
is_none none = true
is_none (some pkt) = false

update_self : (chs : Channels) (s : ℕ) (c : Channel) → update chs s c s ≡ c
update_self chs s c = rw ((==_iff s s).1 refl)

update_other :
    (chs : Channels) (s j : ℕ) (c : Channel) → (s == j) ≡ false → update chs s c j ≡ chs j
update_other chs s j c h = rw (differs h)
  where
    differs : (s == j) ≡ false → (j == s) ≡ false
    differs e = ground arith

and_second : (a b : Bool) → a ≡ true → (a && b) ≡ false → b ≡ false
and_second a b h k = ground arith

recv_thread_succeeds : (c : Channel) (pkt : List ℕ) → is_failed (recv_thread c pkt).1 ≡ false
unfolding recv_thread is_failed
recv_thread_succeeds c pkt = ground arith

module _ (s rsp : ℕ) (buffer cb : Bool) (pkt : List ℕ) where
  recv_on-answer :
      (get_or pkt 2 0 == rsp) ≡ true
      → recv_on (open_channel rsp buffer cb) pkt ≡ recv_thread (open_channel rsp buffer cb) pkt
  unfolding recv_on open_channel
  recv_on-answer h = rw h

  recv_on-other :
      (get_or pkt 2 0 == rsp) ≡ false
      → recv_on (open_channel rsp buffer cb) pkt ≡ (open_channel rsp buffer cb, failed)
  unfolding recv_on open_channel
  recv_on-other h = rw h

  -- The channel that `mt_recv` selects.
  module _ (chs : Channels) where
    selected :
        is_channel s ≡ true
        → subsystem_of (get_or pkt 1 0) ≡ s
        → mt_recv chs pkt ≡ (update chs s (recv_on (chs s) pkt).0, (recv_on (chs s) pkt).1)
    unfolding mt_recv
    selected i h = rw (h, i)

    unselected : (subsystem_of (get_or pkt 1 0) == s) ≡ false → (mt_recv chs pkt).0 s ≡ chs s
    unfolding mt_recv
    unselected h = chosen (is_channel (subsystem_of (get_or pkt 1 0)))
      where
        r : Channel × Status
        r = recv_on (chs (subsystem_of (get_or pkt 1 0))) pkt

        chosen :
            (b : Bool)
            → (if◌then◌else◌ {A = Channels × Status} b
                  (update chs (subsystem_of (get_or pkt 1 0)) r.0, r.1)
                  (chs, failed)).0
                s
              ≡ chs s
        chosen true = update_other chs (subsystem_of (get_or pkt 1 0)) s r.0 h
        chosen false = refl

  module _ (chs : Channels) (pkts : List (List ℕ)) (inside : is_channel s ≡ true)
      (e : chs s ≡ open_channel rsp buffer cb) where
    refused :
        subsystem_of (get_or pkt 1 0) ≡ s
        → (get_or pkt 2 0 == rsp) ≡ false
        → mt_recv chs pkt ≡ (update chs s (open_channel rsp buffer cb), failed)
    refused i h =
        selected chs inside i
        ∙ ap (λ c. (update chs s (recv_on c pkt).0, (recv_on c pkt).1)) e
        ∙ ap (λ r. (update chs s r.0, r.1)) (recv_on-other h)

    taken :
        subsystem_of (get_or pkt 1 0) ≡ s
        → (get_or pkt 2 0 == rsp) ≡ true
        → mt_recv chs pkt ≡ (
          update chs s (recv_thread (open_channel rsp buffer cb) pkt).0,
          (recv_thread (open_channel rsp buffer cb) pkt).1,
        )
    taken i h =
        selected chs inside i
        ∙ ap (λ c. (update chs s (recv_on c pkt).0, (recv_on c pkt).1)) e
        ∙ ap (λ r. (update chs s r.0, r.1)) (recv_on-answer h)

    -- Another packet: the wait goes on, with the request's channel as it was.
    pass :
        answers s rsp pkt ≡ false
        → (chs' : Channels) × (chs' s ≡ open_channel rsp buffer cb)
          × (send_thread s chs (pkt ∷ pkts) ≡ send_thread s chs' pkts)
    unfolding send_thread is_failed
    pass h = elim (Bool-cases (subsystem_of (get_or pkt 1 0) == s)) [
      | inl i ↦
          let r =
            refused ((==_iff (subsystem_of (get_or pkt 1 0)) s).0 i)
              (and_second (subsystem_of (get_or pkt 1 0) == s) (get_or pkt 2 0 == rsp) i h) in
          (
            update chs s (open_channel rsp buffer cb),
            update_self chs s (open_channel rsp buffer cb),
            rw (i, r),
          )
      | inr i ↦ ((mt_recv chs pkt).0, unselected chs i ∙ e, rw i)
    ]

    -- The answer: the wait is over.
    catch :
        answers s rsp pkt ≡ true
        → ((send_thread s chs (pkt ∷ pkts)).channels s
            ≡ (recv_thread (open_channel rsp buffer cb) pkt).0)
          × ((send_thread s chs (pkt ∷ pkts)).reset ≡ false)
    unfolding send_thread
    catch h =
        let i = and_true (subsystem_of (get_or pkt 1 0) == s) (get_or pkt 2 0 == rsp) h in
        let r = taken ((==_iff (subsystem_of (get_or pkt 1 0)) s).0 i.0) i.1 in
        let k = recv_thread_succeeds (open_channel rsp buffer cb) pkt in
        (
          rw (i.0, r, k, update_self chs s (recv_thread (open_channel rsp buffer cb) pkt).0),
          rw (i.0, r, k),
        )

module _ (s rsp : ℕ) (buffer cb : Bool) where
  -- The wait ends with the first answer, or with the timeout.
  send_thread-outcome :
      (arrivals : List (List ℕ)) (chs : Channels)
      → is_channel s ≡ true
      → chs s ≡ open_channel rsp buffer cb
      → ((send_thread s chs arrivals).channels s
          ≡ outcome rsp buffer cb (first_answer s rsp arrivals))
        × ((send_thread s chs arrivals).reset ≡ is_none (first_answer s rsp arrivals))
  unfolding send_thread outcome first_answer
  send_thread-outcome [] chs inside e = (e, refl)
  send_thread-outcome (pkt ∷ pkts) chs inside e = elim (Bool-cases (answers s rsp pkt)) [
    | inl h ↦
        let c = catch s rsp buffer cb pkt chs pkts inside e h in
        let f = first_answer-hit s rsp pkt pkts h in
        (c.0 ∙ ap (outcome rsp buffer cb) (sym f), c.1 ∙ ap is_none (sym f))
    | inr h ↦
        let p = pass s rsp buffer cb pkt chs pkts inside e h in
        let r = send_thread-outcome pkts p.0 inside p.1 in
        let f = first_answer-miss s rsp pkt pkts h in
        (
          ap (λ w. w.channels s) p.2 ∙ r.0 ∙ ap (outcome rsp buffer cb) (sym f),
          ap (λ w. w.reset) p.2 ∙ r.1 ∙ ap is_none (sym f),
        )
  ]

mt_send-release :
    (chs : Channels) (cmd_type rsp : ℕ) (buffer cb : Bool) (arrivals : List (List ℕ))
    → (buffer || cb) ≡ true
    → is_channel (subsystem_of cmd_type) ≡ true
    → (chs (subsystem_of cmd_type)).busy ≡ false
    → mt_send chs cmd_type rsp buffer cb arrivals
      ≡ release (subsystem_of cmd_type) (
          send_thread
            (subsystem_of cmd_type)
            (update chs (subsystem_of cmd_type) (open_channel rsp buffer cb))
            arrivals)
unfolding mt_send
mt_send-release chs cmd_type rsp buffer cb arrivals want inside free = rw (want, inside, free)

-- A request that wants a response, of a subsystem below 15 whose channel is free, returns. It takes
-- the first packet of its subsystem with the command it waits for: it returns 0 with that packet given
-- to its callback, or kept in its buffer if it has no callback. If no such packet comes before the timeout,
-- it returns -1, has nothing, and opens the port anew. The channel is free again in any case.
pub mt_send-answered :
    (chs : Channels) (cmd_type rsp : ℕ) (buffer cb : Bool) (arrivals : List (List ℕ))
    → (buffer || cb) ≡ true
    → subsystem_of cmd_type < 15
    → (chs (subsystem_of cmd_type)).busy ≡ false
    → (chs' : Channels) × (mt_send chs cmd_type rsp buffer cb arrivals
        ≡ sent
            (status_of (first_answer (subsystem_of cmd_type) rsp arrivals))
            chs'
            (is_none (first_answer (subsystem_of cmd_type) rsp arrivals)))
      × ((chs' (subsystem_of cmd_type)).busy ≡ false)
      × ((chs' (subsystem_of cmd_type)).given
          ≡ (if cb then first_answer (subsystem_of cmd_type) rsp arrivals else none))
      × ((chs' (subsystem_of cmd_type)).stored
          ≡ (if cb then none else first_answer (subsystem_of cmd_type) rsp arrivals))
unfolding release
mt_send-answered chs cmd_type rsp buffer cb arrivals want small free =
    let s = subsystem_of cmd_type in
    let inside = lt→ltb s 15 small in
    let start = update chs s (open_channel rsp buffer cb) in
    let w = send_thread s start arrivals in
    let o =
      send_thread-outcome s rsp buffer cb arrivals start inside
        (update_self chs s (open_channel rsp buffer cb)) in
    let f = outcome-fields rsp buffer cb (first_answer s rsp arrivals) want in
    let self = update_self w.channels s (record (w.channels s) { busy = false }) in
    (
      update w.channels s (record (w.channels s) { busy = false }),
      mt_send-release chs cmd_type rsp buffer cb arrivals want inside free
          ∙ ap₂ (λ st r. sent st (update w.channels s (record (w.channels s) { busy = false })) r)
              (ap (λ c. c.send_status) o.0 ∙ f.0) o.1,
      ap (λ c. c.busy) self,
      ap (λ c. c.given) self ∙ ap (λ c. c.given) o.0 ∙ f.1,
      ap (λ c. c.stored) self ∙ ap (λ c. c.stored) o.0 ∙ f.2,
    )
