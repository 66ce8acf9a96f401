-- ===== src/Zdo/Recover/Kept.antt =====
-- What the answers of a device leave in the archive, and what later answers do not change.
use kappaio.Common.{
  ℕ, zero, suc, ◌+◌, ◌≡◌, refl, ap, ap₂, ◌∙◌, Bool, true, false, List, [], ◌∷◌, Option, none, some,
  get_or, drop, ◌==◌, if◌then◌else◌,
}
use kappaio.Aps.Message.{copy_out}
use kappaio.Aps.Model.{Device, Endpoint, device_at, modify}
use kappaio.Aps.Model.Find.{lookup, or_new}
use kappaio.Aps.Peer.{Library}
use kappaio.Zdo.{cntr, simple_desc_frm}
use kappaio.Zdo.Archive.{
  SavedDevice, no_saved_device, save_endpoint_apdu, save_node_desc, save_active_ep,
}
use kappaio.Zdo.Archive.Laws.{
  by_address, entry_of, save_node_desc-lookup, save_active_ep-lookup, save_endpoint_apdu-lookup,
}
use kappaio.Zdo.Descriptors.{node_desc_req_apdu_process, active_ep_req_apdu_process}
use kappaio.Zdo.Join.{
  State, send, counted, on_node_desc, on_active_ep, on_simple_desc, simple_desc_req, endpoint_turn,
  endpoint_turns, endpoint_at, described,
}

abbrev KeepsAddresses : (Device → Device) → Type 0
KeepsAddresses f = (d : Device) → ((f d).id ≡ d.id) × ((f d).ieee_id ≡ d.ieee_id)

device_at-modify :
    (f : Device → Device) (at : ℕ) (xs : List Device)
    → KeepsAddresses f
    → ((device_at (modify at f xs) at).id ≡ (device_at xs at).id)
      × ((device_at (modify at f xs) at).ieee_id ≡ (device_at xs at).ieee_id)
unfolding device_at modify
device_at-modify f at [] h = (refl, refl)
device_at-modify f zero (x ∷ xs) h = h x
device_at-modify f (suc at) (x ∷ xs) h = device_at-modify f at xs h

-- The device at an index has these addresses.
abbrev pub Addressed : ℕ → ℕ → ℕ → State → Type 0
Addressed nwk ieee at s =
    ((device_at s.assocs at).id ≡ nwk) × ((device_at s.assocs at).ieee_id ≡ ieee)

moved :
    {nwk ieee : ℕ} (at : ℕ) (f : Device → Device) (xs : List Device)
    → KeepsAddresses f
    → ((device_at xs at).id ≡ nwk) × ((device_at xs at).ieee_id ≡ ieee)
    → ((device_at (modify at f xs) at).id ≡ nwk) × ((device_at (modify at f xs) at).ieee_id ≡ ieee)
moved at f xs keeps a =
    ((device_at-modify f at xs keeps).0 ∙ a.0, (device_at-modify f at xs keeps).1 ∙ a.1)

-- The archive has an entry with these texts.
abbrev pub Entry : ℕ → ℕ → Option (List ℕ) → Option (List ℕ) → List SavedDevice → Type 0
Entry nwk ieee node_text active_text zar =
    (z : SavedDevice) × (lookup by_address ieee zar ≡ some z)
    × (z.nwk_addr ≡ nwk)
    × (z.node_desc_apdu ≡ node_text)
    × (z.active_endpoint_apdu ≡ active_text)

abbrev pub Kept : ℕ → ℕ → Option (List ℕ) → Option (List ℕ) → State → Type 0
Kept nwk ieee node_text active_text s = Entry nwk ieee node_text active_text s.archive

save_endpoint_apdu-Entry :
    (nwk ieee : ℕ) (node_text active_text : Option (List ℕ)) (ep : ℕ) (bytes : List ℕ)
    (zar : List SavedDevice)
    → Entry nwk ieee node_text active_text zar
    → Entry nwk ieee node_text active_text (save_endpoint_apdu ieee nwk ep bytes zar)
save_endpoint_apdu-Entry nwk ieee node_text active_text ep bytes zar h = (
  _,
  save_endpoint_apdu-lookup ieee nwk ep bytes zar,
  refl,
  ap (λ z. z.node_desc_apdu) same ∙ h.3,
  ap (λ z. z.active_endpoint_apdu) same ∙ h.4,
)
  where
    same : entry_of ieee zar ≡ h.0
    same = ap (or_new (no_saved_device ieee)) h.1

module _ {Name : Type 0} (lib : Library Name) (locals : List Endpoint) (nwk ieee : ℕ)
    (node_text active_text : Option (List ℕ)) (at : ℕ) where
  on_simple_desc-Kept :
      (k : ℕ) (o : Option (List ℕ)) (s : State)
      → Addressed nwk ieee at s
      → Kept nwk ieee node_text active_text s
      → Addressed nwk ieee at (on_simple_desc lib locals at k o s)
        × Kept nwk ieee node_text active_text (on_simple_desc lib locals at k o s)
  unfolding on_simple_desc
  on_simple_desc-Kept k none s a h = (a, h)
  on_simple_desc-Kept k (some x) s a h = (
    moved at (λ d. record d { endpoints = modify k (described lib locals (drop 22 x)) d.endpoints })
        s.assocs (λ d. (refl, refl)) a,
    (
      kept.0,
      ap₂ (λ i n. lookup by_address ieee (save_endpoint_apdu i n ep bytes s.archive)) a.1 a.0
          ∙ kept.1,
      kept.2,
      kept.3,
      kept.4,
    ),
  )
    where
      ep : ℕ
      ep = (endpoint_at (device_at s.assocs at).endpoints k).id

      bytes : List ℕ
      bytes = copy_out (drop 22 x) 0 (get_or x 21 0)

      kept : Entry nwk ieee node_text active_text (save_endpoint_apdu ieee nwk ep bytes s.archive)
      kept = save_endpoint_apdu-Entry nwk ieee node_text active_text ep bytes s.archive h

  module _ (memory : List ℕ) (air : List ℕ → List (List ℕ)) where
    endpoint_turn-Kept :
        (k : ℕ) (s : State)
        → Addressed nwk ieee at s
        → Kept nwk ieee node_text active_text s
        → Addressed nwk ieee at (endpoint_turn lib locals memory air at k s)
          × Kept nwk ieee node_text active_text (endpoint_turn lib locals memory air at k s)
    unfolding endpoint_turn simple_desc_req counted
    endpoint_turn-Kept k s a h = turn ((endpoint_at (device_at s.assocs at).endpoints k).id == 0)
      where
        turn :
            (b : Bool)
            → Addressed nwk ieee at (if b then s else simple_desc_req lib locals memory air at k s)
              × Kept nwk ieee node_text active_text
                  (if b then s else simple_desc_req lib locals memory air at k s)
        turn true = (a, h)
        turn false =
            on_simple_desc-Kept k
              (send memory air (device_at s.assocs at).id 4 (
                simple_desc_frm (device_at s.assocs at).id
                  (endpoint_at (device_at s.assocs at).endpoints k).id (cntr s.counter).0))
              (counted s) a h

    pub endpoint_turns-Kept :
        (n k : ℕ) (s : State)
        → Addressed nwk ieee at s
        → Kept nwk ieee node_text active_text s
        → Kept nwk ieee node_text active_text (endpoint_turns lib locals memory air at n k s)
    unfolding endpoint_turns
    endpoint_turns-Kept zero k s a h = h
    endpoint_turns-Kept (suc n) k s a h =
        let turned = endpoint_turn-Kept k s a h in
        endpoint_turns-Kept n (k + 1) (endpoint_turn lib locals memory air at k s) turned.0 turned.1

-- The first two answers.
pub on_node_desc-saved :
    (nwk ieee at : ℕ) (x : List ℕ) (s : State)
    → Addressed nwk ieee at s
    → Addressed nwk ieee at (on_node_desc at (some x) s)
      × ((entry_of ieee (on_node_desc at (some x) s).archive).node_desc_apdu
          ≡ some (copy_out (drop 21 x) 0 13))
unfolding on_node_desc
on_node_desc-saved nwk ieee at x s a = (
  moved at (λ d. record d { node_descriptor = node_desc_req_apdu_process (drop 21 x) }) s.assocs
      (λ d. (refl, refl)) a,
  ap₂ (λ i n. (entry_of ieee (save_node_desc i n bytes s.archive)).node_desc_apdu) a.1 a.0
      ∙ ap (λ o. (or_new (no_saved_device ieee) o).node_desc_apdu)
          (save_node_desc-lookup ieee nwk bytes s.archive),
)
  where
    bytes : List ℕ
    bytes = copy_out (drop 21 x) 0 13

pub on_active_ep-Kept :
    (nwk ieee at : ℕ) (node_text : Option (List ℕ)) (y : List ℕ) (s : State)
    → Addressed nwk ieee at s
    → (entry_of ieee s.archive).node_desc_apdu ≡ node_text
    → Addressed nwk ieee at (on_active_ep at (some y) s)
      × Kept nwk ieee node_text
          (some (copy_out (drop 21 y) 0 (get_or y 21 0 + 1)))
          (on_active_ep at (some y) s)
unfolding on_active_ep
on_active_ep-Kept nwk ieee at node_text y s a h = (
  moved at (λ d. record d { endpoints = active_ep_req_apdu_process (drop 21 y) d.endpoints })
      s.assocs (λ d. (refl, refl)) a,
  (
    _,
    ap₂ (λ i n. lookup by_address ieee (save_active_ep i n bytes s.archive)) a.1 a.0
        ∙ save_active_ep-lookup ieee nwk bytes s.archive,
    refl,
    h,
    refl,
  ),
)
  where
    bytes : List ℕ
    bytes = copy_out (drop 21 y) 0 (get_or y 21 0 + 1)
