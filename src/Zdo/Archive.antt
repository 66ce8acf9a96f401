-- ===== src/Zdo/Archive.antt =====
-- The archive of the ZDO, src/zdo/source/zdo_archive.cpp: a JSON object of devices by their IEEE addresses, in a
-- file. A number stands for its hexadecimal text and bytes stand for theirs (Util/Hex); a member that is
-- missing is `none`. The file can always be read and written.
pub mod Laws
use kappaio.Common.{ℕ, List, [], Option, none, some, ◌==◌}
use kappaio.Aps.Model.{find_if, modify, remove_if}

pub record SavedEndpoint : Type 0 where
  pub id : ℕ
  pub simple_desc_apdu : Option (List ℕ)

pub record SavedDevice : Type 0 where
  pub ieee_addr : ℕ
  pub nwk_addr : ℕ
  pub node_desc_apdu : Option (List ℕ)
  pub active_endpoint_apdu : Option (List ℕ)
  pub endpoint_list : List SavedEndpoint

abbrev pub no_saved_endpoint : ℕ → SavedEndpoint
no_saved_endpoint i = record { id = i; simple_desc_apdu = none }

abbrev pub no_saved_device : ℕ → SavedDevice
no_saved_device ieee = record {
  ieee_addr = ieee;
  nwk_addr = 0;
  node_desc_apdu = none;
  active_endpoint_apdu = none;
  endpoint_list = [];
}

-- A change of `zar[ieee]`, which is made if it is not there.
unfoldable pub change_device : ℕ → (SavedDevice → SavedDevice) → List SavedDevice → List SavedDevice
change_device ieee f zar =
    let (xs, at) = find_if (λ s. s.ieee_addr == ieee) (no_saved_device ieee) zar in modify at f xs

unfoldable pub change_endpoint :
    ℕ → (SavedEndpoint → SavedEndpoint) → List SavedEndpoint → List SavedEndpoint
change_endpoint i f es =
    let (xs, at) = find_if (λ s. s.id == i) (no_saved_endpoint i) es in modify at f xs

-- `saveDevAddresses`, which does what `saveIds` of a device does.
unfoldable pub save_dev_addresses : ℕ → ℕ → List SavedDevice → List SavedDevice
save_dev_addresses ieee nwk zar = change_device ieee (λ s. record s { nwk_addr = nwk }) zar

-- `saveIds` of an endpoint.
unfoldable pub save_ids : ℕ → ℕ → ℕ → List SavedDevice → List SavedDevice
save_ids ieee nwk ep zar =
    change_device ieee
      (λ s. record s { endpoint_list = change_endpoint ep (λ e. e) s.endpoint_list })
      (save_dev_addresses ieee nwk zar)

-- `saveDevApdu` under each of the two labels that it is called with.
unfoldable pub save_node_desc : ℕ → ℕ → List ℕ → List SavedDevice → List SavedDevice
save_node_desc ieee nwk bytes zar =
    change_device ieee (λ s. record s { node_desc_apdu = some bytes })
      (save_dev_addresses ieee nwk zar)

unfoldable pub save_active_ep : ℕ → ℕ → List ℕ → List SavedDevice → List SavedDevice
save_active_ep ieee nwk bytes zar =
    change_device ieee (λ s. record s { active_endpoint_apdu = some bytes })
      (save_dev_addresses ieee nwk zar)

-- `saveEndpointApdu` under the label `SimpleDescApdu`.
unfoldable pub save_endpoint_apdu : ℕ → ℕ → ℕ → List ℕ → List SavedDevice → List SavedDevice
save_endpoint_apdu ieee nwk ep bytes zar =
    change_device ieee
      (λ s. record s {
        endpoint_list =
            change_endpoint ep (λ e. record e { simple_desc_apdu = some bytes }) s.endpoint_list;
      })
      (save_ids ieee nwk ep zar)

-- `removeDev`
unfoldable pub remove_dev : ℕ → List SavedDevice → List SavedDevice
remove_dev ieee zar = remove_if (λ s. s.ieee_addr == ieee) zar
