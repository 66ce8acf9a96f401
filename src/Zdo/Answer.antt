-- ===== src/Zdo/Answer.antt =====
-- The answer to a request of the ZDO among the packets of the link: src/zdo/source/zdo.cpp with
-- src/aps/include/aps_data_service_impl.hpp and src/hal/include/mtaf_impl.h.
use kappaio.Common.{
  ℕ, ◌+◌, ◌≤◌, ◌<◌, ◌≡◌, refl, ap, ap₂, ◌∙◌, Bool, true, false, ◌&&◌, List, [], ◌∷◌, ◌++◌, map,
  Option, some, get_or, length, ◌==◌, arith,
}
use kappaio.Common.Words.{All}
use kappaio.Aps.Message.{proxy_rd}
use kappaio.Aps.Message.Incoming.{load_str, offsets_in, widths_in, load_str-fields, byte-load_str}
use kappaio.Aps.DataService.{Buffer, to_receiver, indicate_all, request}
use kappaio.Aps.DataService.Wait.{Others, request-answered}
use kappaio.Zdo.{apdu, zdp_pred}
use kappaio.Zdo.Apdu.{zdp_pred-apdu}

-- The packet carries the number of a request at byte 20, the cluster of its answer at byte 5, and is for endpoint 0.
abbrev pub answers : ℕ → ℕ → List ℕ → Bool
answers c_id c pkt =
    (get_or pkt 20 0 == c) && ((proxy_rd pkt 5 2 == 32768 + c_id) && (proxy_rd pkt 10 1 == 0))

-- The packet has a message's fields and a byte of payload, and fits into the message's array.
abbrev pub IsMessage : List ℕ → List ℕ → Type 0
IsMessage memory pkt = (18 ≤ get_or pkt 0 0) × (get_or pkt 0 0 ≤ length memory)

abbrev pub IsOther : ℕ → ℕ → List ℕ → List ℕ → Type 0
IsOther c_id c memory pkt = IsMessage memory pkt × (answers c_id c pkt ≡ false)

map-++ : {A B : Type 0} (f : A → B) (xs ys : List A) → map f (xs ++ ys) ≡ map f xs ++ map f ys
map-++ f [] ys = refl
map-++ f (x ∷ xs) ys = ap (λ zs. f x ∷ zs) (map-++ f xs ys)

cluster_in : (n : ℕ) → 18 ≤ n → get_or offsets_in 1 0 + get_or widths_in 1 0 ≤ n
unfolding offsets_in widths_in
cluster_in n h = omega arith

endpoint_in : (n : ℕ) → 18 ≤ n → get_or offsets_in 4 0 + get_or widths_in 4 0 ≤ n
unfolding offsets_in widths_in
endpoint_in n h = omega arith

module _ (nwkaddr c_id c : ℕ) (frame memory memory_in : List ℕ) (room : length memory ≡ 255)
    (small : c_id < 256) (fits : length (c ∷ frame) ≤ 245) where
  pred-load_str :
      (pkt : List ℕ)
      → IsMessage memory_in pkt
      → zdp_pred (apdu nwkaddr c_id (c ∷ frame) memory) (load_str memory_in pkt)
        ≡ answers c_id c pkt
  unfolding offsets_in widths_in
  pred-load_str pkt is_message =
      let fields = (load_str-fields memory_in pkt is_message.1).0 in
      zdp_pred-apdu nwkaddr c_id c frame memory (load_str memory_in pkt) room small fits
      ∙ ap₂ ◌&&◌
          (ap (λ k. k == c)
            (byte-load_str memory_in pkt 17 is_message.1 (omega (arith, is_message.0))))
          (ap₂ ◌&&◌
            (ap (λ k. k == 32768 + c_id) (fields 1 (cluster_in (get_or pkt 0 0) is_message.0)))
            (ap (λ k. k == 0) (fields 4 (endpoint_in (get_or pkt 0 0) is_message.0))))

  Others-load_str :
      (pkts : List (List ℕ))
      → All (IsOther c_id c memory_in) pkts
      → Others (zdp_pred (apdu nwkaddr c_id (c ∷ frame) memory)) (map (load_str memory_in) pkts)
  Others-load_str [] h = tt
  Others-load_str (pkt ∷ pkts) h = (pred-load_str pkt h.0.0 ∙ h.0.1, Others-load_str pkts h.1)

  -- A request of the ZDO with a cluster below 256 and a frame of at most 245 bytes that begins with its number, and the
  -- packets that arrive, before the wait begins and then: the first packet with that number at byte 20, the request's
  -- cluster with the bit 0x8000 at byte 5, and 0 at byte 10 goes to the request's callback and ends the wait; each
  -- packet before it goes where it would go without the request, and the later ones are not waited for. The packets
  -- up to the answer have at least 18 bytes of data and fit into a message.
  pub request-answers :
      (message_handler : List ℕ → Option ℕ) (h cb : ℕ) (ns : Buffer (List ℕ))
      (early before after : List (List ℕ)) (answer : List ℕ)
      → All (IsOther c_id c memory_in) early
      → All (IsOther c_id c memory_in) before
      → IsMessage memory_in answer
      → answers c_id c answer ≡ true
      → request message_handler h ns
          (zdp_pred (apdu nwkaddr c_id (c ∷ frame) memory))
          cb
          (map (load_str memory_in) early)
          (map (load_str memory_in) (before ++ (answer ∷ after)))
        ≡ some (
          (indicate_all message_handler ns (map (load_str memory_in) (early ++ before))).0,
          (indicate_all message_handler ns (map (load_str memory_in) (early ++ before))).1
              ++ (to_receiver cb ∷ []),
          map (load_str memory_in) after,
        )
  request-answers message_handler h cb ns early before after answer oe ob m e =
      rw
        (
          map-++ (load_str memory_in) before (answer ∷ after),
          map-++ (load_str memory_in) early before,
        )
        (request-answered message_handler h cb (zdp_pred (apdu nwkaddr c_id (c ∷ frame) memory))
          (map (load_str memory_in) early) (map (load_str memory_in) before)
          (map (load_str memory_in) after) (load_str memory_in answer) ns (Others-load_str early oe)
          (Others-load_str before ob) (pred-load_str answer m ∙ e))
