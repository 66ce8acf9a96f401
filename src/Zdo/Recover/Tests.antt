-- ===== src/Zdo/Recover/Tests.antt =====
-- The lamp of the ZDO's tests after a restart.
use kappaio.Common.{replicate, ℕ, ◌≡◌, refl, List, [], ◌∷◌, none, some, drop, arith}
use kappaio.Aps.Message.{copy_out}
use kappaio.Aps.Model.{Device, new_endpoint_of, new_device_of}
use kappaio.Aps.Model.Find.{lookup}
use kappaio.Aps.Peer.{Library}
use kappaio.Zdo.Descriptors.{cluster_list, read_clusters}
use kappaio.Zdo.Archive.{SavedDevice, SavedEndpoint, no_saved_device}
use kappaio.Zdo.Join.{State, described}
use kappaio.Zdo.Recover.{
  saved_simple_desc, recover_endpoint, recover_device, recover_endpoints, recover_rest,
  restore_read, text_data,
}
use kappaio.Zdo.Recover.Restored.{restored, recover_endpoint-described, recover_device-restored}

abbrev no_files : Library ℕ
no_files = record { attributes_of = λ i. none; data_type = λ n. none }

-- The overrun of `hexStrToByteVec`, made up.
abbrev overrun : List ℕ → List ℕ
overrun bs = 0xff ∷ 0xff ∷ []

-- An answer with 17 bytes of header, the number, the status and the address before what is read.
abbrev header_of : ℕ → ℕ → List ℕ → List ℕ
header_of cluster number bs =
    0 ∷ 0 ∷ cluster ∷ 0x80 ∷ 0x34 ∷ 0x12 ∷ 0 ∷ 0 ∷ 0 ∷ 90 ∷ 0 ∷ 1 ∷ 2 ∷ 3 ∷ 4 ∷ 9 ∷ 17 ∷ number ∷ 0
    ∷ 0x34 ∷ 0x12 ∷ bs

abbrev node_rsp : List ℕ
node_rsp = header_of 2 7 (1 ∷ 0x40 ∷ 0x8e ∷ 0x5f ∷ 0x11 ∷ 80 ∷ 160 ∷ 0 ∷ 0 ∷ 0 ∷ 160 ∷ 0 ∷ 0 ∷ [])

abbrev active_rsp : List ℕ
active_rsp = header_of 5 8 (1 ∷ 1 ∷ [])

abbrev simple_rsp : List ℕ
simple_rsp = header_of 4 9 (10 ∷ 1 ∷ 4 ∷ 1 ∷ 0 ∷ 1 ∷ 0 ∷ 1 ∷ 6 ∷ 0 ∷ 0 ∷ [])

abbrev kept_endpoint : SavedEndpoint
kept_endpoint = record {
  id = 1;
  simple_desc_apdu = some (1 ∷ 4 ∷ 1 ∷ 0 ∷ 1 ∷ 0 ∷ 1 ∷ 6 ∷ 0 ∷ 0 ∷ []);
}

abbrev kept_lamp : SavedDevice
kept_lamp = record {
  ieee_addr = 0x0102030405060708;
  nwk_addr = 0x1234;
  node_desc_apdu = some (1 ∷ 0x40 ∷ 0x8e ∷ 0x5f ∷ 0x11 ∷ 80 ∷ 160 ∷ 0 ∷ 0 ∷ 0 ∷ 160 ∷ 0 ∷ 0 ∷ []);
  active_endpoint_apdu = some (1 ∷ 1 ∷ []);
  endpoint_list = kept_endpoint ∷ [];
}

recover_device-restored_run :
    recover_device no_files [] overrun kept_lamp []
    ≡ some (restored no_files [] overrun kept_lamp node_rsp active_rsp ∷ [])
unfolding copy_out lookup
recover_device-restored_run =
    recover_device-restored no_files [] overrun kept_lamp node_rsp active_rsp [] refl refl
      (omega arith) refl

recover_endpoint-described_run :
    recover_endpoint no_files [] overrun (kept_endpoint ∷ []) (new_endpoint_of 1)
    ≡ described no_files [] (drop 22 simple_rsp) (new_endpoint_of 1)
unfolding copy_out saved_simple_desc cluster_list read_clusters
recover_endpoint-described_run =
    recover_endpoint-described no_files [] overrun (kept_endpoint ∷ []) (new_endpoint_of 1)
      simple_rsp refl refl (omega arith)

-- A device that never answered has no texts, and its recovery reads from nowhere.
nothing_to_read : recover_endpoints no_files [] overrun (no_saved_device 9 ∷ []) [] ≡ none
unfolding recover_endpoints recover_rest recover_device restore_read text_data
nothing_to_read = refl

-- The lamp has joined, and the counter stands at 7.
abbrev lamp : Device
lamp = record (new_device_of 0x1234) { ieee_id = 0x0102030405060708 }

abbrev gateway : State
gateway = record { counter = 7; assocs = lamp ∷ []; archive = [] }

abbrev memory : List ℕ
memory = replicate 255 0xee

-- The same messages arrive after every request.
abbrev air : List ℕ → List (List ℕ)
air request = node_rsp ∷ active_rsp ∷ []
