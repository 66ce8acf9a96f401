-- ===== src/Zdo/Join/Announce.antt =====
-- What an announcement makes of the associated devices, whatever arrives while the device is queried.
use kappaio.Common.{
  ℕ, zero, suc, ◌+◌, ◌%◌, ◌≡◌, refl, sym, ap, ◌∙◌, Bool, true, false, List, [], ◌∷◌, Option, none,
  some, length, ◌==◌, if◌then◌else◌,
}
use kappaio.Aps.Model.{Device, Endpoint, modify, device_at, assocs_ieee, new_device_of}
use kappaio.Aps.Model.Find.{lookup, update, or_new, modify_nothing, lookup-modify}
use kappaio.Aps.Model.Assocs.{by_ieee}
use kappaio.Aps.Peer.{Library}
use kappaio.Zdo.{cntr, generic_zdp_frm, simple_desc_frm}
use kappaio.Zdo.Join.{
  State, send, counted, on_node_desc, node_desc_req, on_active_ep, active_ep_req, on_simple_desc,
  simple_desc_req, endpoint_turn, endpoint_turns, endpoint_at, get_all_endpoint_simple_desc, query,
  announced, join,
}

modify-modify :
    {A : Type 0} (f g : A → A) (i : ℕ) (xs : List A)
    → modify i g (modify i f xs) ≡ modify i (λ x. g (f x)) xs
unfolding modify
modify-modify f g i [] = refl
modify-modify f g zero (x ∷ xs) = refl
modify-modify f g (suc i) (x ∷ xs) = ap (λ ys. x ∷ ys) (modify-modify f g i xs)

-- A change that leaves the addresses and the capability alone.
abbrev Keeps : (Device → Device) → Type 0
Keeps f =
    (d : Device)
    → ((f d).id ≡ d.id) × ((f d).ieee_id ≡ d.ieee_id) × ((f d).capability ≡ d.capability)

-- Only the device at an index has changed, in such a way.
abbrev Only : ℕ → List Device → List Device → Type 0
Only at xs ys = (f : Device → Device) × Keeps f × (ys ≡ modify at f xs)

Only-nothing : (at : ℕ) (xs : List Device) → Only at xs xs
Only-nothing at xs = ((λ d. d), (λ d. (refl, refl, refl)), sym (modify_nothing at xs))

Only-then : (at : ℕ) (xs ys zs : List Device) → Only at xs ys → Only at ys zs → Only at xs zs
Only-then at xs ys zs h k = (
  (λ d. k.0 (h.0 d)),
  (λ d. ((k.1 (h.0 d)).0 ∙ (h.1 d).0, (k.1 (h.0 d)).1 ∙ (h.1 d).1, (k.1 (h.0 d)).2 ∙ (h.1 d).2)),
  k.2 ∙ ap (modify at k.0) h.2 ∙ modify-modify h.0 k.0 at xs,
)

on_node_desc-Only :
    (at : ℕ) (o : Option (List ℕ)) (s : State) → Only at s.assocs (on_node_desc at o s).assocs
unfolding on_node_desc
on_node_desc-Only at none s = Only-nothing at s.assocs
on_node_desc-Only at (some x) s = (_, (λ d. (refl, refl, refl)), refl)

on_active_ep-Only :
    (at : ℕ) (o : Option (List ℕ)) (s : State) → Only at s.assocs (on_active_ep at o s).assocs
unfolding on_active_ep
on_active_ep-Only at none s = Only-nothing at s.assocs
on_active_ep-Only at (some x) s = (_, (λ d. (refl, refl, refl)), refl)

-- The device that joined, and where it is found.
abbrev pub Joined : ℕ → ℕ → ℕ → List Device → List Device → Type 0
Joined nwk ieee capability xs ys =
    (d : Device) × (d.id ≡ nwk)
    × (d.ieee_id ≡ ieee)
    × (d.capability ≡ capability)
    × (d.active ≡ 1)
    × ((k : ℕ) → lookup by_ieee k ys ≡ update ieee (some d) (λ k. lookup by_ieee k xs) k)

module _ {Name : Type 0} (lib : Library Name) (locals : List Endpoint) (memory : List ℕ)
    (air : List ℕ → List (List ℕ)) where
  on_simple_desc-Only :
      (at k : ℕ) (o : Option (List ℕ)) (s : State)
      → Only at s.assocs (on_simple_desc lib locals at k o s).assocs
  unfolding on_simple_desc
  on_simple_desc-Only at k none s = Only-nothing at s.assocs
  on_simple_desc-Only at k (some x) s = (_, (λ d. (refl, refl, refl)), refl)

  endpoint_turn-Only :
      (at k : ℕ) (s : State) → Only at s.assocs (endpoint_turn lib locals memory air at k s).assocs
  unfolding endpoint_turn simple_desc_req counted
  endpoint_turn-Only at k s = turn ((endpoint_at (device_at s.assocs at).endpoints k).id == 0)
    where
      turn :
          (b : Bool)
          → Only at s.assocs (if b then s else simple_desc_req lib locals memory air at k s).assocs
      turn true = Only-nothing at s.assocs
      turn false =
          on_simple_desc-Only at k
            (send memory air d.id 4
              (simple_desc_frm d.id (endpoint_at d.endpoints k).id (cntr s.counter).0))
            (counted s)
        where
          d : Device
          d = device_at s.assocs at

  endpoint_turns-Only :
      (at n k : ℕ) (s : State)
      → Only at s.assocs (endpoint_turns lib locals memory air at n k s).assocs
  unfolding endpoint_turns
  endpoint_turns-Only at zero k s = Only-nothing at s.assocs
  endpoint_turns-Only at (suc n) k s =
      let turned = endpoint_turn lib locals memory air at k s in
      Only-then at s.assocs turned.assocs
        (endpoint_turns lib locals memory air at n (k + 1) turned).assocs
        (endpoint_turn-Only at k s) (endpoint_turns-Only at n (k + 1) turned)

  node_desc_req-Only :
      (at : ℕ) (s : State) → Only at s.assocs (node_desc_req lib locals memory air at s).assocs
  unfolding node_desc_req counted
  node_desc_req-Only at s =
      on_node_desc-Only at
        (send memory air (device_at s.assocs at).id 2
          (generic_zdp_frm (device_at s.assocs at).id (cntr s.counter).0))
        (counted s)

  active_ep_req-Only :
      (at : ℕ) (s : State) → Only at s.assocs (active_ep_req lib locals memory air at s).assocs
  unfolding active_ep_req counted
  active_ep_req-Only at s =
      on_active_ep-Only at
        (send memory air (device_at s.assocs at).id 5
          (generic_zdp_frm (device_at s.assocs at).id (cntr s.counter).0))
        (counted s)

  -- The changes of a query, before the device is active.
  asked-Only :
      (at : ℕ) (s : State)
      → Only at s.assocs
          (get_all_endpoint_simple_desc lib locals memory air at (
            active_ep_req lib locals memory air at
              (node_desc_req lib locals memory air at s))).assocs
  unfolding get_all_endpoint_simple_desc
  asked-Only at s =
      let first = node_desc_req lib locals memory air at s in
      let second = active_ep_req lib locals memory air at first in
      Only-then at s.assocs second.assocs _
        (Only-then at s.assocs first.assocs second.assocs (node_desc_req-Only at s)
          (active_ep_req-Only at first))
        (endpoint_turns-Only at (length (device_at second.assocs at).endpoints) 0 second)

  query-Only :
      (at : ℕ) (s : State)
      → (f : Device → Device) × Keeps f
        × ((d : Device) → (f d).active ≡ 1)
        × ((query lib locals memory air at s).assocs ≡ modify at f s.assocs)
  unfolding query
  query-Only at s =
      let asked = asked-Only at s in
      (
        (λ d. record (asked.0 d) { active = 1 }),
        asked.1,
        (λ d. refl),
        ap (modify at (λ d. record d { active = 1 })) asked.2
            ∙ modify-modify asked.0 (λ d. record d { active = 1 }) at s.assocs,
      )

  pub join-Joined :
      (nwk ieee capability : ℕ) (s : State)
      → Joined nwk ieee capability s.assocs
          (join lib locals memory air nwk ieee capability s).assocs
  unfolding join announced assocs_ieee
  join-Joined nwk ieee capability s =
      let found = assocs_ieee ieee s.assocs in
      let changed = modify found.1 (announced nwk ieee capability) found.0 in
      let asked = query-Only found.1 (record s { assocs = changed }) in
      let old = or_new (new_device_of (ieee % 65536)) (lookup by_ieee ieee s.assocs) in
      let d = announced nwk ieee capability old in
      (
        asked.0 d,
        (asked.1 d).0,
        (asked.1 d).1,
        (asked.1 d).2,
        asked.2 d,
        (λ k.
            ap (lookup by_ieee k)
              (asked.3 ∙ modify-modify (announced nwk ieee capability) asked.0 found.1 found.0)
            ∙ lookup-modify by_ieee (new_device_of (ieee % 65536)) ieee s.assocs
                (λ x. asked.0 (announced nwk ieee capability x)) (asked.1 d).1 k),
      )
