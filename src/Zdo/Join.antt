-- ===== src/Zdo/Join.antt =====
-- A device joins: `device_annce_proc` of src/zdo/source/zdo.cpp with the requests that it sends, and the recovery of the
-- devices from the archive, `recoverEndpoint`. The local endpoints, the JSON files of the profiles, the memory of
-- a new message, and the messages that arrive after a request, as a function of it, are parameters.
pub mod Announce
pub mod Incoming
use kappaio.Common.{
  ℕ, zero, suc, ◌+◌, Bool, true, false, List, [], ◌∷◌, Option, none, some, length, get_or, drop,
  ◌==◌, ◌&&◌, ltb, not, if◌then◌else◌,
}
use kappaio.Aps.Message.{copy_out, proxy_rd, get_field}
use kappaio.Aps.Message.Incoming.{offsets_in, widths_in}
use kappaio.Aps.Model.{
  Device, Endpoint, new_endpoint_of, modify, device_at, assocs_ieee, assocs_short, remove_assoc,
}
use kappaio.Aps.Peer.{Library, aps_newpeer_handle}
use kappaio.Zdo.{cntr, apdu, generic_zdp_frm, simple_desc_frm, zdp_pred}
use kappaio.Zdo.Descriptors.{
  node_desc_req_apdu_process, simple_desc_req_apdu_process, active_ep_req_apdu_process,
}
use kappaio.Zdo.Archive.{SavedDevice, save_node_desc, save_active_ep, save_endpoint_apdu}

-- What the ZDO changes: the counter of `cntr()`, the associated devices and the archive.
pub record State : Type 0 where
  pub counter : ℕ
  pub assocs : List Device
  pub archive : List SavedDevice

-- A reference that is read; an index is always inside.
unfoldable pub endpoint_at : List Endpoint → ℕ → Endpoint
endpoint_at [] i = new_endpoint_of 0
endpoint_at (x ∷ xs) zero = x
endpoint_at (x ∷ xs) (suc i) = endpoint_at xs i

-- `message_preprocess_` with a place for an address: the address, and what is behind it.
unfoldable pub is_response : List ℕ → Bool
is_response msg = not (ltb (get_field offsets_in widths_in 1 msg) 32768)

unfoldable pub message_preprocess : List ℕ → ℕ → Option (ℕ × List ℕ)
message_preprocess msg asdu_len_exp =
    let body = drop (if is_response msg then 19 else 18) msg in
    if not (get_field offsets_in widths_in 8 msg == asdu_len_exp)
    then none
    else (if is_response msg && not (get_or msg 18 0 == 0)
        then none
        else some (proxy_rd body 0 2, drop 2 body))

-- The message that the callback of a request gets: the first that its predicate accepts (Aps/DataService).
unfoldable pub answer : (List ℕ → Bool) → List (List ℕ) → Option (List ℕ)
answer pred [] = none
answer pred (x ∷ xs) = if pred x then some x else answer pred xs

-- A step of `cntr()`.
unfoldable pub counted : State → State
counted s = record s { counter = (cntr s.counter).1 }

-- The callback of `node_desc_req`, if it is called.
unfoldable pub on_node_desc : ℕ → Option (List ℕ) → State → State
on_node_desc at none s = s
on_node_desc at (some x) s =
    let d = device_at s.assocs at in
    record s {
      archive = save_node_desc d.ieee_id d.id (copy_out (drop 21 x) 0 13) s.archive;
      assocs =
          modify at (λ d. record d { node_descriptor = node_desc_req_apdu_process (drop 21 x) })
            s.assocs;
    }

-- That of `active_ep_req`.
unfoldable pub on_active_ep : ℕ → Option (List ℕ) → State → State
on_active_ep at none s = s
on_active_ep at (some x) s =
    let d = device_at s.assocs at in
    record s {
      archive =
          save_active_ep d.ieee_id d.id (copy_out (drop 21 x) 0 (get_or x 21 0 + 1)) s.archive;
      assocs =
          modify at
            (λ d. record d { endpoints = active_ep_req_apdu_process (drop 21 x) d.endpoints })
            s.assocs;
    }

-- The first changes of `device_annce_proc`.
unfoldable pub announced : ℕ → ℕ → ℕ → Device → Device
announced nwk ieee capability d = record d { id = nwk; ieee_id = ieee; capability = capability }

-- The callback of `simple_desc_req`: the descriptor, and `aps_newpeer_handle`.
module _ {Name : Type 0} (lib : Library Name) (locals : List Endpoint) where
  unfoldable pub described : List ℕ → Endpoint → Endpoint
  described bytes e =
      (aps_newpeer_handle lib locals
        (record e { simple_descriptor = simple_desc_req_apdu_process bytes })).0

  unfoldable pub on_simple_desc : ℕ → ℕ → Option (List ℕ) → State → State
  on_simple_desc at k none s = s
  on_simple_desc at k (some x) s =
      let d = device_at s.assocs at in
      record s {
        archive =
            save_endpoint_apdu d.ieee_id d.id (endpoint_at d.endpoints k).id
              (copy_out (drop 22 x) 0 (get_or x 21 0)) s.archive;
        assocs =
            modify at (λ d. record d { endpoints = modify k (described (drop 22 x)) d.endpoints })
              s.assocs;
      }

module _ (memory : List ℕ) (air : List ℕ → List (List ℕ)) where
  -- `APDU{nwkaddr, cId, frame}.send`: what the callback gets. The messages that the predicate refuses go to
  -- `zdo_callback`, which changes nothing unless they are announcements; an announcement that arrives during the wait
  -- of a request is not followed.
  unfoldable pub send : ℕ → ℕ → List ℕ → Option (List ℕ)
  send nwkaddr c_id frame =
      answer (zdp_pred (apdu nwkaddr c_id frame memory)) (air (apdu nwkaddr c_id frame memory))

module _ {Name : Type 0} (lib : Library Name) (locals : List Endpoint) (memory : List ℕ)
    (air : List ℕ → List (List ℕ)) where
  -- `node_desc_req`
  unfoldable pub node_desc_req : ℕ → State → State
  node_desc_req at s =
      let d = device_at s.assocs at in
      on_node_desc at (send memory air d.id 2 (generic_zdp_frm d.id (cntr s.counter).0)) (counted s)

  -- `active_ep_req`
  unfoldable pub active_ep_req : ℕ → State → State
  active_ep_req at s =
      let d = device_at s.assocs at in
      on_active_ep at (send memory air d.id 5 (generic_zdp_frm d.id (cntr s.counter).0)) (counted s)

  -- `simple_desc_req` of the endpoint at the index `k`.
  unfoldable pub simple_desc_req : ℕ → ℕ → State → State
  simple_desc_req at k s =
      let d = device_at s.assocs at in
      on_simple_desc lib locals at k
        (send memory air d.id 4
          (simple_desc_frm d.id (endpoint_at d.endpoints k).id (cntr s.counter).0))
        (counted s)

  -- `getAllEndpointSimpleDesc`: the loop over the endpoints from the index `k` on.
  unfoldable pub endpoint_turn : ℕ → ℕ → State → State
  endpoint_turn at k s =
      if (endpoint_at (device_at s.assocs at).endpoints k).id == 0
      then s
      else simple_desc_req at k s

  unfoldable pub endpoint_turns : ℕ → ℕ → ℕ → State → State
  endpoint_turns at zero k s = s
  endpoint_turns at (suc n) k s = endpoint_turns at n (k + 1) (endpoint_turn at k s)

  unfoldable pub get_all_endpoint_simple_desc : ℕ → State → State
  get_all_endpoint_simple_desc at s =
      endpoint_turns at (length (device_at s.assocs at).endpoints) 0 s

  -- The three requests and what is after them; none of them returns an error.
  unfoldable pub query : ℕ → State → State
  query at s =
      let asked = get_all_endpoint_simple_desc at (active_ep_req at (node_desc_req at s)) in
      record asked { assocs = modify at (λ d. record d { active = 1 }) asked.assocs }

  -- `device_annce_proc`
  unfoldable pub join : ℕ → ℕ → ℕ → State → State
  join nwk ieee capability s =
      let (xs, at) = assocs_ieee ieee s.assocs in
      query at (record s { assocs = modify at (announced nwk ieee capability) xs })

  unfoldable pub on_annce : Option (ℕ × List ℕ) → State → State
  on_annce none s = s
  on_annce (some (nwk, body)) s = join nwk (proxy_rd body 0 8) (get_or body 8 0) s

  unfoldable pub device_annce_proc : List ℕ → State → State
  device_annce_proc msg s = on_annce (message_preprocess msg 12) s

  -- `zdo_callback`: the other messages change nothing.
  unfoldable pub zdo_callback : List ℕ → State → State
  zdo_callback msg s =
      if get_field offsets_in widths_in 1 msg == 0x13 then device_annce_proc msg s else s

  -- `deviceQuery`, which gets the device's IEEE address by a call of the link, and `refreshDevice`.
  unfoldable pub device_query : (ℕ → ℕ) → ℕ → State → State
  device_query get_assoc_ext_addr short s =
      let (xs, at) = assocs_short short s.assocs in
      query at (record s {
        assocs = modify at (λ d. record d { id = short; ieee_id = get_assoc_ext_addr short }) xs;
      })

  unfoldable pub refresh_device : (ℕ → ℕ) → ℕ → State → State
  refresh_device get_assoc_ext_addr short s =
      device_query get_assoc_ext_addr short (record s { assocs = remove_assoc short s.assocs })
