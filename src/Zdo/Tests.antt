-- ===== src/Zdo/Tests.antt =====
-- Runs of the ZDO on the messages of a lamp with one endpoint.
use kappaio.Common.{
  ℕ, ◌+◌, ◌≡◌, refl, true, List, [], ◌∷◌, ◌++◌, map, some, none, get_or, replicate, ◌==◌, ◌&&◌,
  ◌||◌, arith,
}
use kappaio.Common.Words.{All, Bytes, to_le, from_le}
use kappaio.Aps.Message.{af_data_request, copy_out, proxy_rd, get_field}
use kappaio.Aps.Message.Incoming.{load_str, offsets_in, widths_in}
use kappaio.Aps.Model.{SimpleDescriptor}
use kappaio.Aps.Model.Find.{is_some, lookup}
use kappaio.Aps.Model.Endpoints.{by_endpoint, Distinct}
use kappaio.Aps.Peer.{Library, has}
use kappaio.Aps.DataService.{request, indicate_all, to_receiver}
use kappaio.Zdo.Answer.{request-answers}
use kappaio.Zdo.{apdu, zdp_pred, generic_zdp_frm, zdp_hdr}
use kappaio.Zdo.Apdu.{datagram, apdu-sent, zdp_pred-apdu}
use kappaio.Zdo.Descriptors.{
  node_desc_req_apdu_process, simple_desc_req_apdu_process, active_ep_req_apdu_process,
}
use kappaio.Zdo.Descriptors.Texts.{
  node_descriptor_bytes, simple_descriptor_bytes, node_descriptor_bytes-node_desc,
  simple_desc-simple_descriptor_bytes,
}
use kappaio.Zdo.Descriptors.Active.{active_ep-listed}
use kappaio.Zdo.Join.{State, zdo_callback}
use kappaio.Zdo.Join.Announce.{Joined}
use kappaio.Zdo.Join.Incoming.{zdo_callback-Joined}

-- Memory that was not initialised.
abbrev garbage : List ℕ
garbage = replicate 255 0xee

garbage-Bytes : Bytes garbage
garbage-Bytes = omega arith

-- A request for the node descriptor of the device 0x1234, the seventh of the counter.
abbrev frame : List ℕ
frame = 7 ∷ 0x34 ∷ 0x12 ∷ []

generic_frame : generic_zdp_frm 0x1234 7 ≡ frame
unfolding generic_zdp_frm zdp_hdr to_le
generic_frame = refl

frame-Bytes : Bytes frame
frame-Bytes = omega arith

apdu-sent_example : af_data_request garbage (apdu 0x1234 2 frame garbage) ≡ datagram 0x1234 2 frame
apdu-sent_example =
    apdu-sent 0x1234 2 frame garbage refl (omega arith) garbage garbage-Bytes frame-Bytes

-- The answer of the device: cluster 0x8002 for endpoint 0, with the descriptor of a router.
abbrev node_desc_rsp : List ℕ
node_desc_rsp =
    0 ∷ 0 ∷ 0x02 ∷ 0x80 ∷ 0x34 ∷ 0x12 ∷ 0 ∷ 0 ∷ 0 ∷ 90 ∷ 0 ∷ 1 ∷ 2 ∷ 3 ∷ 4 ∷ 9 ∷ 17 ∷ 7 ∷ 0 ∷ 0x34
    ∷ 0x12 ∷ 1 ∷ 0x40 ∷ 0x8e ∷ 0x5f ∷ 0x11 ∷ 80 ∷ 160 ∷ 0 ∷ 0 ∷ 0 ∷ 160 ∷ 0 ∷ 0 ∷ []

zdp_pred-apdu_run : zdp_pred (apdu 0x1234 2 frame garbage) node_desc_rsp ≡ (
    (get_or node_desc_rsp 17 0 == 7)
    && ((get_field offsets_in widths_in 1 node_desc_rsp == 32768 + 2)
        && (get_field offsets_in widths_in 4 node_desc_rsp == 0)))
zdp_pred-apdu_run =
    zdp_pred-apdu 0x1234 2 7 (0x34 ∷ 0x12 ∷ []) garbage node_desc_rsp refl (omega arith)
      (omega arith)

answered : zdp_pred (apdu 0x1234 2 frame garbage) node_desc_rsp ≡ true
unfolding get_field offsets_in widths_in proxy_rd copy_out from_le
answered = zdp_pred-apdu_run

abbrev router : List ℕ
router = 1 ∷ 0x40 ∷ 0x8e ∷ 0x5f ∷ 0x11 ∷ 80 ∷ 160 ∷ 0 ∷ 0 ∷ 0 ∷ 160 ∷ 0 ∷ 0 ∷ []

router-Bytes : Bytes router
router-Bytes = omega arith

node_descriptor_bytes-node_desc_run :
    node_descriptor_bytes (node_desc_req_apdu_process router) ≡ copy_out router 0 13
node_descriptor_bytes-node_desc_run = node_descriptor_bytes-node_desc router router-Bytes

abbrev on_off_light : SimpleDescriptor
on_off_light = record {
  outcluster_list = 25 ∷ [];
  incluster_list = 0 ∷ 6 ∷ [];
  endpoint_addr = 1;
  profile_id = 0x104;
  device_id = 0x100;
  device_version = 0;
}

simple_desc-simple_descriptor_bytes_example :
    simple_desc_req_apdu_process (simple_descriptor_bytes on_off_light ++ (9 ∷ [])) ≡ on_off_light
simple_desc-simple_descriptor_bytes_example =
    simple_desc-simple_descriptor_bytes on_off_light (9 ∷ [])

active_ep-listed_run :
    Distinct by_endpoint (active_ep_req_apdu_process (2 ∷ 1 ∷ 3 ∷ []) [])
    × ((k : ℕ)
        → is_some (lookup by_endpoint k (active_ep_req_apdu_process (2 ∷ 1 ∷ 3 ∷ []) []))
          ≡ (has k (copy_out (2 ∷ 1 ∷ 3 ∷ []) 1 2) || is_some (lookup by_endpoint k [])))
active_ep-listed_run = active_ep-listed (2 ∷ 1 ∷ 3 ∷ []) [] tt

-- The announcement of the lamp, to a gateway that has no devices, where only the node descriptor is answered.
abbrev annce : List ℕ
annce =
    0 ∷ 0 ∷ 0x13 ∷ 0 ∷ 0x34 ∷ 0x12 ∷ 0 ∷ 0 ∷ 0 ∷ 90 ∷ 0 ∷ 1 ∷ 2 ∷ 3 ∷ 4 ∷ 9 ∷ 12 ∷ 1 ∷ 0x34 ∷ 0x12
    ∷ 8 ∷ 7 ∷ 6 ∷ 5 ∷ 4 ∷ 3 ∷ 2 ∷ 1 ∷ 0x8e ∷ []

abbrev empty_gateway : State
empty_gateway = record { counter = 7; assocs = []; archive = [] }

abbrev no_files : Library ℕ
no_files = record { attributes_of = λ i. none; data_type = λ n. none }

zdo_callback-Joined_example :
    Joined
      (proxy_rd annce 18 2)
      (proxy_rd annce 20 8)
      0x8e
      []
      (zdo_callback no_files [] garbage (λ o. node_desc_rsp ∷ []) annce empty_gateway).assocs
    × ((request : List ℕ)
        → All
            (λ m. (t : State) → zdo_callback no_files [] garbage (λ o. node_desc_rsp ∷ []) m t ≡ t)
            (node_desc_rsp ∷ []))
unfolding get_field offsets_in widths_in proxy_rd copy_out from_le
zdo_callback-Joined_example =
    zdo_callback-Joined no_files [] garbage (λ o. node_desc_rsp ∷ []) annce empty_gateway refl refl
      (λ request. (refl, tt))

-- The answer as a packet of the link, the same for another request before it, and another message behind it.
abbrev answer_packet : ℕ → List ℕ
answer_packet number =
    34 ∷ 0x44 ∷ 0x81 ∷ 0 ∷ 0 ∷ 0x02 ∷ 0x80 ∷ 0x34 ∷ 0x12 ∷ 0 ∷ 0 ∷ 0 ∷ 90 ∷ 0 ∷ 1 ∷ 2 ∷ 3 ∷ 4 ∷ 9
    ∷ 17 ∷ number ∷ 0 ∷ 0x34 ∷ 0x12 ∷ 1 ∷ 0x40 ∷ 0x8e ∷ 0x5f ∷ 0x11 ∷ 80 ∷ 160 ∷ 0 ∷ 0 ∷ 0 ∷ 160 ∷ 0
    ∷ 0 ∷ []

request-answers_example :
    request
      (λ msg. none)
      200
      []
      (zdp_pred (apdu 0x1234 2 frame garbage))
      5
      []
      (map (load_str garbage) (answer_packet 6 ∷ answer_packet 7 ∷ answer_packet 7 ∷ []))
    ≡ some (
      (indicate_all (λ msg. none) [] (map (load_str garbage) (answer_packet 6 ∷ []))).0,
      (indicate_all (λ msg. none) [] (map (load_str garbage) (answer_packet 6 ∷ []))).1
          ++ (to_receiver 5 ∷ []),
      map (load_str garbage) (answer_packet 7 ∷ []),
    )
unfolding proxy_rd copy_out from_le
request-answers_example =
    request-answers 0x1234 2 7 (0x34 ∷ 0x12 ∷ []) garbage garbage refl (omega arith) (omega arith)
      (λ msg. none) 200 5 [] [] (answer_packet 6 ∷ []) (answer_packet 7 ∷ []) (answer_packet 7) tt
      (((omega arith, omega arith), refl), tt) (omega arith, omega arith) refl
