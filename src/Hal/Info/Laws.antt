-- ===== src/Hal/Info/Laws.antt =====
-- The answers are read as they were written.
use kappaio.Common.{
  ℕ, ◌+◌, ◌^◌, ◌<◌, ◌≡◌, refl, ap, ap₂, sym, ◌∙◌, List, [], ◌∷◌, ◌++◌, Option, none, some, drop,
  length, length-append, append_assoc, drop-length_append,
}
use kappaio.Common.Words.{to_le, from_le, length-to_le}
use kappaio.Aps.Message.{copy_out}
use kappaio.Aps.Message.Send.{copy_out-drop, copy_out-add}
use kappaio.Aps.Message.Fields.{from_le-to_le}
use kappaio.Hal.Request.{
  Message, React, Link, answered, reply_to, IsFree, outcome_for, mt_request, mt_request-outcome,
}
use kappaio.Hal.Info.{
  assoc_find_message, device_info_message, nv_info_message, assoc_widths, device_info_widths,
  nv_info_widths, read_fields, fields_of, get_assoc_info, get_device_info, get_nv_info,
}

-- Fields as little-endian bytes, one behind the other.
unfoldable pub write_fields : List ℕ → List ℕ → List ℕ
write_fields (w ∷ ws) (v ∷ vs) = to_le w v ++ write_fields ws vs
write_fields [] vs = []
write_fields (w ∷ ws) [] = []

-- One value for each width, and each of that width.
abbrev pub Fields : List ℕ → List ℕ → Type 0
Fields [] [] = Unit
Fields [] (v ∷ vs) = ⊥
Fields (w ∷ ws) [] = ⊥
Fields (w ∷ ws) (v ∷ vs) = (v < 256 ^ w) × Fields ws vs

abbrev pub total : List ℕ → ℕ
total [] = 0
total (w ∷ ws) = w + total ws

copy_out-front : (xs ys : List ℕ) → copy_out (xs ++ ys) 0 (length xs) ≡ xs
unfolding copy_out
copy_out-front [] ys = refl
copy_out-front (x ∷ xs) ys =
    ap (◌∷◌ x) (sym (copy_out-drop 1 (x ∷ (xs ++ ys)) 0 (length xs)) ∙ copy_out-front xs ys)

length-write_fields : (ws vs : List ℕ) → Fields ws vs → length (write_fields ws vs) ≡ total ws
unfolding write_fields
length-write_fields [] [] h = refl
length-write_fields [] (v ∷ vs) h = absurd h
length-write_fields (w ∷ ws) [] h = absurd h
length-write_fields (w ∷ ws) (v ∷ vs) h =
    length-append (to_le w v) (write_fields ws vs)
    ∙ ap₂ ◌+◌ (length-to_le w v) (length-write_fields ws vs h.1)

read_fields-write_fields :
    (ws vs rest : List ℕ) → Fields ws vs → read_fields ws (write_fields ws vs ++ rest) ≡ vs
unfolding read_fields write_fields
read_fields-write_fields [] [] rest h = refl
read_fields-write_fields [] (v ∷ vs) rest h = absurd h
read_fields-write_fields (w ∷ ws) [] rest h = absurd h
read_fields-write_fields (w ∷ ws) (v ∷ vs) rest h =
    ap (read_fields (w ∷ ws)) (append_assoc (to_le w v) (write_fields ws vs) rest)
    ∙ ap₂ ◌∷◌ (ap from_le front ∙ from_le-to_le w v h.0)
        (ap (read_fields ws) back ∙ read_fields-write_fields ws vs rest h.1)
  where
    front : copy_out (to_le w v ++ (write_fields ws vs ++ rest)) 0 w ≡ to_le w v
    front =
        ap (copy_out (to_le w v ++ (write_fields ws vs ++ rest)) 0) (sym (length-to_le w v))
        ∙ copy_out-front (to_le w v) (write_fields ws vs ++ rest)

    back : drop w (to_le w v ++ (write_fields ws vs ++ rest)) ≡ write_fields ws vs ++ rest
    back =
        ap (λ n. drop n (to_le w v ++ (write_fields ws vs ++ rest))) (sym (length-to_le w v))
        ∙ drop-length_append (to_le w v) (write_fields ws vs ++ rest)

-- The part of the answer that is copied holds the fields, if it is as long as they are.
copied :
    (ws vs rest pkt : List ℕ) (extra : ℕ)
    → Fields ws vs
    → drop 3 pkt ≡ write_fields ws vs ++ rest
    → (junk : List ℕ) × (copy_out pkt 3 (total ws + extra) ≡ write_fields ws vs ++ junk)
copied ws vs rest pkt extra h e =
    let d = write_fields ws vs ++ rest in
    let whole : copy_out d 0 (total ws) ≡ write_fields ws vs =
      ap (copy_out d 0) (sym (length-write_fields ws vs h))
      ∙ copy_out-front (write_fields ws vs) rest in
    (
      copy_out d (0 + total ws) extra,
      sym (copy_out-drop 3 pkt 0 (total ws + extra))
          ∙ ap (λ xs. copy_out xs 0 (total ws + extra)) e
          ∙ copy_out-add d 0 (total ws) extra
          ∙ ap (λ xs. xs ++ copy_out d (0 + total ws) extra) whole,
    )

module _ {Chip : Type 0} (react : React Chip) (l : Link Chip) (m : Message) (ws : List ℕ)
    (extra : ℕ) where
  fields_of-answered :
      (pkt vs rest : List ℕ)
      → IsFree l m.cmd_type
      → reply_to react l.chip m ≡ some pkt
      → Fields ws vs
      → drop 3 pkt ≡ write_fields ws vs ++ rest
      → fields_of ws (mt_request react (total ws + extra) l m).1 ≡ some vs
  unfolding fields_of
  fields_of-answered pkt vs rest free reply h e =
      let c = copied ws vs rest pkt extra h e in
      ap (fields_of ws) (
        mt_request-outcome react (total ws + extra) l m free
        ∙ ap (outcome_for (total ws + extra)) reply
        ∙ ap answered c.1)
      ∙ ap some (read_fields-write_fields ws vs c.0 h)

  fields_of-silent :
      IsFree l m.cmd_type
      → reply_to react l.chip m ≡ none
      → fields_of ws (mt_request react (total ws + extra) l m).1 ≡ none
  unfolding fields_of
  fields_of-silent free reply = ap (fields_of ws) (
      mt_request-outcome react (total ws + extra) l m free
      ∙ ap (outcome_for (total ws + extra)) reply)

-- The three questions with a record as their answer.
pub data Question : Type 0 where
  associated : ℕ → Question
  device : Question
  settings : Question

abbrev pub message_of : Question → Message
message_of (associated index) = assoc_find_message index
message_of device = device_info_message
message_of settings = nv_info_message

-- The layouts of the answers in the processor's documentation, without padding. Of an associated device: its short
-- address and its index, two bytes each, four single bytes, and of its link four single bytes, the counter of
-- frames, four bytes, and that of failures, two. Of the device: the status, the IEEE address, eight bytes, the short
-- address, two, and three single bytes. Of the settings: the status, the IEEE address, the channels, four bytes, the
-- network, two, and the level of security.
abbrev pub layout_of : Question → List ℕ
layout_of (associated index) =
    (2 ∷ 2 ∷ []) ++ (1 ∷ 1 ∷ 1 ∷ 1 ∷ []) ++ (1 ∷ 1 ∷ 1 ∷ 1 ∷ []) ++ (4 ∷ 2 ∷ [])
layout_of device = (1 ∷ 8 ∷ 2 ∷ []) ++ (1 ∷ 1 ∷ 1 ∷ [])
layout_of settings = 1 ∷ 8 ∷ 4 ∷ 2 ∷ 1 ∷ []

abbrev pub ask : {Chip : Type 0} → React Chip → Link Chip → Question → Option (List ℕ)
ask react l (associated index) = (get_assoc_info react l index).1
ask react l device = (get_device_info react l).1
ask react l settings = (get_nv_info react l).1

-- `getAssocInfo`, `getDeviceInfo` and `GetNvInfo`, on a free channel: if the processor's reply has the
-- little-endian bytes of a record's fields as its data, of the widths and in the order that `layout_of` lists,
-- with anything behind them, the record is read; if no reply comes in time, the result is -1.
pub ask-written :
    {Chip : Type 0} (react : React Chip) (l : Link Chip) (q : Question)
    → IsFree l 0x27
    → ((pkt vs rest : List ℕ)
        → reply_to react l.chip (message_of q) ≡ some pkt
        → Fields (layout_of q) vs
        → drop 3 pkt ≡ write_fields (layout_of q) vs ++ rest
        → ask react l q ≡ some vs)
      × (reply_to react l.chip (message_of q) ≡ none → ask react l q ≡ none)
unfolding get_assoc_info get_device_info get_nv_info assoc_find_message device_info_message
    nv_info_message assoc_widths device_info_widths nv_info_widths
ask-written react l (associated index) free = (
  λ pkt vs rest r h e.
      fields_of-answered react l (assoc_find_message index) assoc_widths 0 pkt vs rest free r h e,
  λ r. fields_of-silent react l (assoc_find_message index) assoc_widths 0 free r,
)
ask-written react l device free = (
  λ pkt vs rest r h e.
      fields_of-answered react l device_info_message device_info_widths 242 pkt vs rest free r h e,
  λ r. fields_of-silent react l device_info_message device_info_widths 242 free r,
)
ask-written react l settings free = (
  λ pkt vs rest r h e.
      fields_of-answered react l nv_info_message nv_info_widths 240 pkt vs rest free r h e,
  λ r. fields_of-silent react l nv_info_message nv_info_widths 240 free r,
)
