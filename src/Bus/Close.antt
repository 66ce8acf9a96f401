-- ===== src/Bus/Close.antt =====
-- The end of a file of the bus: `kbClose` of src/kapi/source/kbus.cpp.
use kappaio.Common.{Bool, true, false, List, [], ◌∷◌, Option, none, some, map, if◌then◌else◌}
use kappaio.Common.Dicts.{Dict}
use kappaio.Bus.{KbData, Slot, number, object, KbFile, get_elem?, free_slot, is_live, any_freed}

module _ {J : Type 0} where
  -- `json_decref` of the bus, which releases what its keys hold; `none` is the release of freed data.
  unfoldable pub release_slots : List (KbData J) → Dict Slot → Option (List (KbData J))
  release_slots objs [] = some objs
  release_slots objs ((name, slot) ∷ d) =
      let rest = release_slots (free_slot (some slot) objs) d in
      if is_released objs slot then none else rest
    where
      is_released : List (KbData J) → Slot → Bool
      is_released ds (number n) = false
      is_released ds (object i) = if is_live (get_elem? ds i) then false else true

  -- `destroyKbData`
  unfoldable pub destroy_kb_data : KbData J → KbData J
  destroy_kb_data d = record d { freed = true }

  -- `kbClose`: the data of every object is released (`destroyKbData`), then the bus.
  unfoldable pub kb_close : KbFile J → Option (List (KbData J))
  unfolding release_slots destroy_kb_data
  kb_close f = if any_freed f.objs then none else release_slots (map destroy_kb_data f.objs) f.bus
