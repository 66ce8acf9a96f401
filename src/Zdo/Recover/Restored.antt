-- ===== src/Zdo/Recover/Restored.antt =====
-- What is recovered is what the device answered when it joined.
use kappaio.Common.{
  ℕ, ◌+◌, ◌%◌, ◌<◌, ◌≤◌, ◌≡◌, refl, ap, ap₂, ◌∙◌, false, List, [], ◌∷◌, ◌++◌, none, some, map,
  get_or, drop, length, get_or-drop, ◌==◌, arith,
}
use kappaio.Aps.Message.{copy_out}
use kappaio.Aps.Message.Send.{length-copy_out}
use kappaio.Aps.Model.{Device, Endpoint, new_device_of, assocs_short, modify}
use kappaio.Aps.Model.Find.{lookup, reference-missing}
use kappaio.Aps.Model.Assocs.{by_id}
use kappaio.Aps.Peer.{Library, aps_newpeer_handle}
use kappaio.Zdo.Descriptors.{node_desc_req_apdu_process, active_ep_req_apdu_process}
use kappaio.Zdo.Archive.{SavedDevice, SavedEndpoint}
use kappaio.Zdo.Join.{described}
use kappaio.Zdo.Recover.{
  text_data, saved_simple_desc, described_by, recover_endpoint, restore, restore_read,
  recover_device,
}
use kappaio.Zdo.Recover.Bytes.{
  Agree, copy-Agree, node_desc-Agree, active_ep-Agree, simple_desc-Agree, descriptor_size,
}

text_data-some :
    (beyond : List ℕ → List ℕ) (bs : List ℕ)
    → 0 < length bs
    → text_data beyond (some bs) ≡ some (bs ++ beyond bs)
unfolding text_data
text_data-some beyond [] h = absurd (omega arith)
text_data-some beyond (b ∷ bs) h = refl

saved_text :
    (beyond : List ℕ → List ℕ) (d : List ℕ) (n : ℕ)
    → 0 < n
    → text_data beyond (some (copy_out d 0 n)) ≡ some (copy_out d 0 n ++ beyond (copy_out d 0 n))
saved_text beyond d n h =
    text_data-some beyond (copy_out d 0 n) (omega (arith, length-copy_out d 0 n))

module _ {Name : Type 0} (lib : Library Name) (locals : List Endpoint)
    (beyond : List ℕ → List ℕ) where
  described-Agree :
      (p q : List ℕ) (e : Endpoint)
      → Agree (descriptor_size q) p q
      → described lib locals p e ≡ described lib locals q e
  unfolding described
  described-Agree p q e h =
      ap (λ s. (aps_newpeer_handle lib locals (record e { simple_descriptor = s })).0)
        (simple_desc-Agree p q h)

  -- The recovery of an endpoint other than 0 whose simple descriptor was kept from the answer `x`, if the length in
  -- the answer covers the descriptor: the endpoint gets the descriptor and the peer that the answer gave
  -- it, whatever is read behind the text.
  pub recover_endpoint-described :
      (es : List SavedEndpoint) (e : Endpoint) (x : List ℕ)
      → (e.id == 0) ≡ false
      → saved_simple_desc e.id es ≡ some (copy_out (drop 22 x) 0 (get_or x 21 0))
      → descriptor_size (drop 22 x) ≤ get_or x 21 0
      → recover_endpoint lib locals beyond es e ≡ described lib locals (drop 22 x) e
  unfolding recover_endpoint described_by
  recover_endpoint-described es e x other saved covered =
      rw (other, saved, saved_text beyond (drop 22 x) (get_or x 21 0) (omega arith))
        (described-Agree
          (copy_out (drop 22 x) 0 (get_or x 21 0)
            ++ beyond (copy_out (drop 22 x) 0 (get_or x 21 0)))
          (drop 22 x) e
          (λ i h.
            copy-Agree (drop 22 x) (beyond (copy_out (drop 22 x) 0 (get_or x 21 0))) (get_or x 21 0)
              i (omega arith)))

  -- The device that is kept as `z`, with the answers `x` and `y` to the requests for its node descriptor and its
  -- active endpoints.
  abbrev pub restored : SavedDevice → List ℕ → List ℕ → Device
  restored z x y = record (new_device_of z.nwk_addr) {
    ieee_id = z.ieee_addr;
    active = 1;
    node_descriptor = node_desc_req_apdu_process (drop 21 x);
    endpoints =
        map (recover_endpoint lib locals beyond z.endpoint_list)
          (active_ep_req_apdu_process (drop 21 y) []);
  }

  -- The recovery of a device with a short address that no other has, of which the archive keeps what
  -- `node_desc_req` and `active_ep_req` save of the answers `x` and `y`: it is put in front of the others,
  -- active, with its addresses, with the node descriptor that `x` holds and with the endpoints that `y` lists,
  -- whatever is read behind the texts.
  pub recover_device-restored :
      (z : SavedDevice) (x y : List ℕ) (xs : List Device)
      → z.node_desc_apdu ≡ some (copy_out (drop 21 x) 0 13)
      → z.active_endpoint_apdu ≡ some (copy_out (drop 21 y) 0 (get_or y 21 0 + 1))
      → z.nwk_addr < 65536
      → lookup by_id z.nwk_addr xs ≡ none
      → recover_device lib locals beyond z xs ≡ some (restored z x y ∷ xs)
  unfolding recover_device restore_read restore assocs_short modify
  recover_device-restored z x y xs node active small free =
      ap₂ (λ n a. restore_read lib locals beyond z n a xs)
        (ap (text_data beyond) node ∙ saved_text beyond (drop 21 x) 13 (omega arith))
        (ap (text_data beyond) active
          ∙ saved_text beyond (drop 21 y) (get_or y 21 0 + 1) (omega arith))
      ∙ ap (λ r. some (modify r.1 (restore lib locals beyond z (kept x 13) (kept y count)) r.0))
          reference
      ∙ ap₂
          (λ n eps. some (
            record (new_device_of z.nwk_addr) {
              ieee_id = z.ieee_addr;
              active = 1;
              node_descriptor = n;
              endpoints = map (recover_endpoint lib locals beyond z.endpoint_list) eps;
            }
            ∷ xs))
          (node_desc-Agree (kept x 13) (drop 21 x)
            (copy-Agree (drop 21 x) (beyond (copy_out (drop 21 x) 0 13)) 13))
          (active_ep-Agree (kept y count) (drop 21 y) [] (λ i h.
            copy-Agree (drop 21 y) (beyond (copy_out (drop 21 y) 0 count)) count i
              (omega (arith, get_or-drop 21 y 0 0, h))))
    where
      count : ℕ
      count = get_or y 21 0 + 1

      kept : List ℕ → ℕ → List ℕ
      kept d n = copy_out (drop 21 d) 0 n ++ beyond (copy_out (drop 21 d) 0 n)

      reference : assocs_short (z.nwk_addr % 65536) xs ≡ (new_device_of z.nwk_addr ∷ xs, 0)
      reference =
          ap (λ k. assocs_short k xs) whole
          ∙ reference-missing by_id (new_device_of z.nwk_addr) z.nwk_addr xs free
        where
          whole : z.nwk_addr % 65536 ≡ z.nwk_addr
          whole = omega arith
