-- ===== src/Zdo/Descriptors.antt =====
-- The descriptors in the answers of a device: `node_desc_req_apdu_process`, `simple_desc_req_apdu_process` and
-- `active_ep_req_apdu_process` of src/zdo/source/zdo.cpp. A pointer into a message is what is behind it.
pub mod Texts
pub mod Active
use kappaio.Common.{ℕ, zero, suc, ◌*◌, ◌/◌, List, [], ◌∷◌, get_or, drop, bit_and}
use kappaio.Aps.Message.{proxy_rd}
use kappaio.Aps.Model.{NodeDescriptor, SimpleDescriptor, Endpoint, endpoints_at}

-- `node_desc_req_apdu_process`; of `pasdu += ANSITohostInt(…, ++pasdu)` the right side comes first.
unfoldable pub node_desc_req_apdu_process : List ℕ → NodeDescriptor
node_desc_req_apdu_process apdu = record {
  logical_type = bit_and (get_or apdu 0 0) 7;
  complex_desc_avail = bit_and (get_or apdu 0 0) 8 / 8;
  user_desc_avail = bit_and (get_or apdu 0 0) 16 / 16;
  reserved = bit_and (get_or apdu 0 0) 224 / 32;
  aps_flags = bit_and (get_or apdu 1 0) 7;
  frequency_band = bit_and (get_or apdu 1 0) 248 / 8;
  capability_flags = get_or apdu 2 0;
  manufacturer_code = proxy_rd apdu 3 2;
  max_buffer_size = get_or apdu 5 0;
  max_in_transfer_size = proxy_rd apdu 6 2;
  server_mask = proxy_rd apdu 8 2;
  max_out_transfer_size = proxy_rd apdu 10 2;
  descriptor_capability = get_or apdu 12 0;
}

-- The loop over a list of clusters: what it reads, and the pointer after it.
unfoldable pub read_clusters : ℕ → List ℕ → List ℕ × List ℕ
read_clusters zero p = ([], p)
read_clusters (suc n) p =
    let (ids, rest) = read_clusters n (drop 2 p) in (proxy_rd p 0 2 ∷ ids, rest)

-- A list of clusters behind its count.
unfoldable pub cluster_list : List ℕ → List ℕ × List ℕ
cluster_list p = read_clusters (get_or p 0 0) (drop 1 p)

-- `simple_desc_req_apdu_process`
unfoldable pub simple_desc_req_apdu_process : List ℕ → SimpleDescriptor
simple_desc_req_apdu_process apdu =
    let (ins, p) = cluster_list (drop 6 apdu) in
    let (outs, q) = cluster_list p in
    record {
      outcluster_list = outs;
      incluster_list = ins;
      endpoint_addr = get_or apdu 0 0;
      profile_id = proxy_rd apdu 1 2;
      device_id = proxy_rd apdu 3 2;
      device_version = get_or apdu 5 0;
    }

-- `active_ep_req_apdu_process`: the loop, with the pointer.
unfoldable pub add_endpoints : ℕ → List ℕ → List Endpoint → List Endpoint
add_endpoints zero p eps = eps
add_endpoints (suc n) p eps = add_endpoints n (drop 1 p) (endpoints_at (get_or p 0 0) eps).0

unfoldable pub active_ep_req_apdu_process : List ℕ → List Endpoint → List Endpoint
active_ep_req_apdu_process apdu eps = add_endpoints (get_or apdu 0 0) (drop 1 apdu) eps
