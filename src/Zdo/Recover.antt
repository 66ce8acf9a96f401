-- ===== src/Zdo/Recover.antt =====
-- The devices after a restart: `recoverEndpoint` of src/zdo/source/zdo.cpp, of an archive that can be read. The bytes
-- that `hexStrToByteVec` reads behind a text are a parameter. The file's object gives its members in the
-- order of the list.
pub mod Bytes
pub mod Restored
pub mod Kept
pub mod Restart
mod Tests
use kappaio.Common.{ℕ, ◌%◌, List, [], ◌∷◌, ◌++◌, Option, none, some, map, ◌==◌, if◌then◌else◌}
use kappaio.Aps.Model.{Device, Endpoint, assocs_short, modify}
use kappaio.Aps.Peer.{Library}
use kappaio.Zdo.Descriptors.{node_desc_req_apdu_process, active_ep_req_apdu_process}
use kappaio.Zdo.Archive.{SavedDevice, SavedEndpoint}
use kappaio.Zdo.Join.{described}

module _ (beyond : List ℕ → List ℕ) where
  -- `hexStrToByteVec(text).data()`; without a text, or of an empty one, there is nothing to read from.
  unfoldable pub text_data : Option (List ℕ) → Option (List ℕ)
  text_data none = none
  text_data (some []) = none
  text_data (some (b ∷ bs)) = some ((b ∷ bs) ++ beyond (b ∷ bs))

-- `dev["endpointList"][id]["SimpleDescApdu"]`
unfoldable pub saved_simple_desc : ℕ → List SavedEndpoint → Option (List ℕ)
saved_simple_desc i [] = none
saved_simple_desc i (e ∷ es) = if e.id == i then e.simple_desc_apdu else saved_simple_desc i es

module _ {Name : Type 0} (lib : Library Name) (locals : List Endpoint)
    (beyond : List ℕ → List ℕ) where
  unfoldable pub described_by : Endpoint → Option (List ℕ) → Endpoint
  described_by e none = e
  described_by e (some bytes) = described lib locals bytes e

  -- A turn of the loop over the endpoints.
  unfoldable pub recover_endpoint : List SavedEndpoint → Endpoint → Endpoint
  recover_endpoint es e =
      if e.id == 0 then e else described_by e (text_data beyond (saved_simple_desc e.id es))

  unfoldable pub restore : SavedDevice → List ℕ → List ℕ → Device → Device
  restore z node active d = record d {
    ieee_id = z.ieee_addr;
    active = 1;
    node_descriptor = node_desc_req_apdu_process node;
    endpoints =
        map (recover_endpoint z.endpoint_list) (active_ep_req_apdu_process active d.endpoints);
  }

  -- A member of the archive; `none` is a read from nowhere.
  unfoldable pub restore_read :
      SavedDevice → Option (List ℕ) → Option (List ℕ) → List Device → Option (List Device)
  restore_read z none active xs = none
  restore_read z (some node) none xs = none
  restore_read z (some node) (some active) xs =
      let (ys, at) = assocs_short (z.nwk_addr % 65536) xs in
      some (modify at (restore z node active) ys)

  unfoldable pub recover_device : SavedDevice → List Device → Option (List Device)
  recover_device z xs =
      restore_read z (text_data beyond z.node_desc_apdu) (text_data beyond z.active_endpoint_apdu)
        xs

  unfoldable pub recover_rest :
      (List Device → Option (List Device)) → Option (List Device) → Option (List Device)
  recover_rest go none = none
  recover_rest go (some xs) = go xs

  unfoldable pub recover_endpoints : List SavedDevice → List Device → Option (List Device)
  recover_endpoints [] xs = some xs
  recover_endpoints (z ∷ zs) xs = recover_rest (recover_endpoints zs) (recover_device z xs)
