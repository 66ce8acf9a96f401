-- ===== src/Zdo/Join/Incoming.antt =====
-- From the bytes of an announcement to the device that has joined.
use kappaio.Common.{
  ℕ, ◌≡◌, refl, sym, ap, ap₂, ◌∙◌, subst, false, ◌==◌, List, [], ◌∷◌, some, get_or, drop,
  get_or-drop, ==_iff,
}
use kappaio.Common.Words.{All}
use kappaio.Aps.Message.{proxy_rd, get_field}
use kappaio.Aps.Message.Incoming.{offsets_in, widths_in}
use kappaio.Aps.Model.{Endpoint}
use kappaio.Aps.Peer.{Library}
use kappaio.Aps.Message.Send.{proxy_rd-drop}
use kappaio.Zdo.Join.{
  State, message_preprocess, is_response, on_annce, device_annce_proc, zdo_callback, join,
}
use kappaio.Zdo.Join.Announce.{Joined, join-Joined}

-- No announcement is among the messages.
abbrev pub IsQuiet : List (List ℕ) → Type 0
IsQuiet msgs = All (λ m. (get_field offsets_in widths_in 1 m == 0x13) ≡ false) msgs

preprocessed :
    (msg : List ℕ) (len : ℕ)
    → get_field offsets_in widths_in 1 msg ≡ 0x13
    → get_field offsets_in widths_in 8 msg ≡ len
    → message_preprocess msg len ≡ some (proxy_rd (drop 18 msg) 0 2, drop 2 (drop 18 msg))
unfolding message_preprocess is_response
preprocessed msg len cluster length_is = rw (cluster, length_is, (==_iff len len).1 refl)

module _ {Name : Type 0} (lib : Library Name) (locals : List Endpoint) (memory : List ℕ)
    (air : List ℕ → List (List ℕ)) where
  callback_is :
      (msg : List ℕ) (s : State)
      → get_field offsets_in widths_in 1 msg ≡ 0x13
      → get_field offsets_in widths_in 8 msg ≡ 12
      → zdo_callback lib locals memory air msg s
        ≡ join lib locals memory air (proxy_rd msg 18 2) (proxy_rd msg 20 8) (get_or msg 28 0) s
  unfolding zdo_callback device_annce_proc on_annce
  callback_is msg s cluster length_is = rw (cluster) (
      ap (λ o. on_annce lib locals memory air o s) (preprocessed msg 12 cluster length_is)
      ∙ ap₂ (λ nwk body. join lib locals memory air nwk (proxy_rd body 0 8) (get_or body 8 0) s)
          (proxy_rd-drop 18 msg 0 2) refl
      ∙ ap₂ (λ ieee capability. join lib locals memory air (proxy_rd msg 18 2) ieee capability s)
          (proxy_rd-drop 2 (drop 18 msg) 0 8 ∙ proxy_rd-drop 18 msg 2 8)
          (get_or-drop 2 (drop 18 msg) 8 0 ∙ get_or-drop 18 msg 10 0))

  -- What a request passes over while it waits changes nothing, if there is no announcement among it.
  passed_over :
      (msgs : List (List ℕ))
      → IsQuiet msgs
      → All (λ m. (t : State) → zdo_callback lib locals memory air m t ≡ t) msgs
  unfolding zdo_callback
  passed_over [] h = tt
  passed_over (m ∷ msgs) h = ((λ t. rw h.0 refl), passed_over msgs h.1)

  -- An announcement, a message of cluster 0x0013 with 12 bytes of payload, and other messages that arrive while the
  -- device is queried, none of them an announcement: afterwards the first device with the IEEE address of bytes 3
  -- to 10 of the payload has the short address of bytes 1 and 2 and the capability of byte 11 and is active, and
  -- under every other IEEE address the same device is found as before. The callback changes nothing for any of
  -- the messages that arrive meanwhile, so those that are not the answer to a request may be passed over.
  pub zdo_callback-Joined :
      (msg : List ℕ) (s : State)
      → get_field offsets_in widths_in 1 msg ≡ 0x13
      → get_field offsets_in widths_in 8 msg ≡ 12
      → ((request : List ℕ) → IsQuiet (air request))
      → Joined
          (proxy_rd msg 18 2)
          (proxy_rd msg 20 8)
          (get_or msg 28 0)
          s.assocs
          (zdo_callback lib locals memory air msg s).assocs
        × ((request : List ℕ)
            → All (λ m. (t : State) → zdo_callback lib locals memory air m t ≡ t) (air request))
  zdo_callback-Joined msg s cluster length_is quiet = (
    subst (λ t. Joined (proxy_rd msg 18 2) (proxy_rd msg 20 8) (get_or msg 28 0) s.assocs t.assocs)
        (sym (callback_is msg s cluster length_is))
        (join-Joined lib locals memory air (proxy_rd msg 18 2) (proxy_rd msg 20 8) (get_or msg 28 0)
          s),
    (λ request. passed_over (air request) (quiet request)),
  )
