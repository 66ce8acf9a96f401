-- ===== src/Zdo/Recover/Restart.antt =====
-- A device joins, its answers go into the archive, and after a restart it is there again.
use kappaio.Common.{ℕ, ◌≡◌, List, ◌∷◌, none, some}
use kappaio.Aps.Model.{Device, Endpoint, device_at}
use kappaio.Aps.Model.Find.{lookup}
use kappaio.Aps.Model.Assocs.{by_id}
use kappaio.Aps.Peer.{Library}
use kappaio.Zdo.{cntr, generic_zdp_frm}
use kappaio.Zdo.Archive.{SavedDevice}
use kappaio.Zdo.Archive.Laws.{by_address}
use kappaio.Zdo.Join.{State, send, counted, on_node_desc, on_active_ep}
use kappaio.Zdo.Recover.{recover_device}
use kappaio.Zdo.Recover.Restored.{restored}
use kappaio.Zdo.Recover.Kept.{Kept}

module _ {Name : Type 0} (lib : Library Name) (locals : List Endpoint) (memory : List ℕ)
    (air : List ℕ → List (List ℕ)) (beyond : List ℕ → List ℕ) where
  -- The archive brings a device back.
  abbrev pub BringsBack : Device → List ℕ → List ℕ → List SavedDevice → Type 0
  BringsBack d x y zar =
      (z : SavedDevice) × (lookup by_address d.ieee_id zar ≡ some z)
      × ((xs : List Device)
          → lookup by_id d.id xs ≡ none
          → recover_device lib locals beyond z xs ≡ some (restored lib locals beyond z x y ∷ xs))

  module _ (at : ℕ) (s : State) (x y : List ℕ)
      (hx : send memory air
          (device_at s.assocs at).id
          2
          (generic_zdp_frm (device_at s.assocs at).id (cntr s.counter).0)
        ≡ some x)
      (hy : send memory air
          (device_at s.assocs at).id
          5
          (generic_zdp_frm (device_at s.assocs at).id (cntr s.counter).1)
        ≡ some y) where
    first : State
    first = on_node_desc at (some x) (counted s)

    second : State
    second = on_active_ep at (some y) (counted first)
