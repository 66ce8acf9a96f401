-- ===== src/Zdo/Archive/Laws.antt =====
-- What is found in the archive after a device's answers are saved.
use kappaio.Common.{ℕ, ◌≡◌, refl, ap, ◌∙◌, List, some, ==_iff}
use kappaio.Aps.Model.Find.{lookup, update, or_new, lookup-modify, key-or_new}
use kappaio.Zdo.Archive.{
  SavedDevice, no_saved_device, change_device, change_endpoint, save_dev_addresses, save_ids,
  save_node_desc, save_active_ep, save_endpoint_apdu,
}

abbrev pub by_address : SavedDevice → ℕ
by_address z = z.ieee_addr

-- The entry of a device, new if there is none.
abbrev pub entry_of : ℕ → List SavedDevice → SavedDevice
entry_of ieee zar = or_new (no_saved_device ieee) (lookup by_address ieee zar)

change_device-lookup :
    (ieee : ℕ) (f : SavedDevice → SavedDevice) (zar : List SavedDevice)
    → ((z : SavedDevice) → (f z).ieee_addr ≡ z.ieee_addr)
    → lookup by_address ieee (change_device ieee f zar) ≡ some (f (entry_of ieee zar))
unfolding change_device
change_device-lookup ieee f zar keeps =
    lookup-modify by_address (no_saved_device ieee) ieee zar f
      (keeps (entry_of ieee zar) ∙ key-or_new by_address (no_saved_device ieee) ieee zar refl) ieee
    ∙ found
  where
    found :
        update ieee (some (f (entry_of ieee zar))) (λ k. lookup by_address k zar) ieee
        ≡ some (f (entry_of ieee zar))
    found = rw ((==_iff ieee ieee).1 refl)

changed_entry :
    (ieee : ℕ) (f : SavedDevice → SavedDevice) (zar : List SavedDevice)
    → ((z : SavedDevice) → (f z).ieee_addr ≡ z.ieee_addr)
    → entry_of ieee (change_device ieee f zar) ≡ f (entry_of ieee zar)
changed_entry ieee f zar keeps =
    ap (or_new (no_saved_device ieee)) (change_device-lookup ieee f zar keeps)

-- The entry with the short address, which every saving writes first.
abbrev pub addressed : ℕ → SavedDevice → SavedDevice
addressed nwk z = record z { nwk_addr = nwk }

pub save_node_desc-lookup :
    (ieee nwk : ℕ) (bytes : List ℕ) (zar : List SavedDevice)
    → lookup by_address ieee (save_node_desc ieee nwk bytes zar)
      ≡ some (record (addressed nwk (entry_of ieee zar)) { node_desc_apdu = some bytes })
unfolding save_node_desc save_dev_addresses
save_node_desc-lookup ieee nwk bytes zar =
    change_device-lookup ieee (λ z. record z { node_desc_apdu = some bytes })
      (change_device ieee (addressed nwk) zar) (λ z. refl)
    ∙ ap {A = SavedDevice} (λ z. some (record z { node_desc_apdu = some bytes }))
        (changed_entry ieee (addressed nwk) zar (λ z. refl))

pub save_active_ep-lookup :
    (ieee nwk : ℕ) (bytes : List ℕ) (zar : List SavedDevice)
    → lookup by_address ieee (save_active_ep ieee nwk bytes zar)
      ≡ some (record (addressed nwk (entry_of ieee zar)) { active_endpoint_apdu = some bytes })
unfolding save_active_ep save_dev_addresses
save_active_ep-lookup ieee nwk bytes zar =
    change_device-lookup ieee (λ z. record z { active_endpoint_apdu = some bytes })
      (change_device ieee (addressed nwk) zar) (λ z. refl)
    ∙ ap {A = SavedDevice} (λ z. some (record z { active_endpoint_apdu = some bytes }))
        (changed_entry ieee (addressed nwk) zar (λ z. refl))

pub save_endpoint_apdu-lookup :
    (ieee nwk ep : ℕ) (bytes : List ℕ) (zar : List SavedDevice)
    → lookup by_address ieee (save_endpoint_apdu ieee nwk ep bytes zar)
      ≡ some (record (addressed nwk (entry_of ieee zar)) {
        endpoint_list =
            change_endpoint ep
              (λ e. record e { simple_desc_apdu = some bytes })
              (change_endpoint ep (λ e. e) (entry_of ieee zar).endpoint_list);
      })
unfolding save_endpoint_apdu save_ids save_dev_addresses
save_endpoint_apdu-lookup ieee nwk ep bytes zar =
    change_device-lookup ieee described
      (change_device ieee listed (change_device ieee (addressed nwk) zar)) (λ z. refl)
    ∙ ap (λ z. some (described z))
        (changed_entry ieee listed (change_device ieee (addressed nwk) zar) (λ z. refl)
          ∙ ap listed (changed_entry ieee (addressed nwk) zar (λ z. refl)))
  where
    listed : SavedDevice → SavedDevice
    listed z = record z { endpoint_list = change_endpoint ep (λ e. e) z.endpoint_list }

    described : SavedDevice → SavedDevice
    described z = record z {
      endpoint_list =
          change_endpoint ep (λ e. record e { simple_desc_apdu = some bytes }) z.endpoint_list;
    }
