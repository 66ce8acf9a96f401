-- ===== src/Hal/Nv/Tests.antt =====
-- The settings in a processor with one item, 0x0021, of 120 bytes.
use kappaio.Common.{
  ℕ, ◌+◌, ◌-◌, ◌≤◌, ◌<◌, ◌≡◌, refl, false, List, [], ◌∷◌, ◌++◌, some, get_or, drop, length,
  replicate, get_or-append_right, ◌==◌, if◌then◌else◌, Bool-cases, inl, inr, ==_iff, arith,
  get_or-drop,
}
use kappaio.Common.Words.{to_le}
use kappaio.Serial.Channel.{open_channel}
use kappaio.Serial.Channel.Laws.{first_answer}
use kappaio.Aps.Message.{copy_out, copy_in}
use kappaio.Hal.Request.{React, Link, reply_to}
use kappaio.Hal.Nv.{
  NvItem, success, nv_read_message, nv_write_message, set_nwk_update_id, get_nwk_update_id,
  get_channel,
}
use kappaio.Hal.Nv.Laws.{KeepsItems, get-set_nwk_update_id}

-- The processor is the bytes of its item.
abbrev items : List ℕ → ℕ → List ℕ
items c id = if id == 0x0021 then c else []

abbrev read_reply : List ℕ → ℕ → List ℕ
read_reply c off = 2 ∷ 0x61 ∷ 0x08 ∷ 0 ∷ (length c - off) ∷ drop off c

abbrev react : React (List ℕ)
react c m =
    if m.cmd_id == 0x08
    then (c, read_reply c (get_or m.sent_data 2 0) ∷ [])
    else (copy_in c (get_or m.sent_data 2 0) (drop 4 m.sent_data), (1 ∷ 0x61 ∷ 0x09 ∷ 0 ∷ []) ∷ [])

reads_items :
    (c : List ℕ) (item : NvItem)
    → item.offset < length (items c item.id)
    → length (items c item.id) ≤ item.offset + 246
    → (pkt : List ℕ) × (reply_to react c (nv_read_message item) ≡ some pkt)
      × (get_or pkt 3 0 ≡ 0)
      × (get_or pkt 4 0 ≡ length (items c item.id) - item.offset)
      × ((i : ℕ)
          → i < length (items c item.id) - item.offset
          → get_or pkt (5 + i) 0 ≡ get_or (items c item.id) (item.offset + i) 0)
      × (items (react c (nv_read_message item)).0 ≡ items c)
unfolding reply_to nv_read_message first_answer to_le
reads_items c item h k = elim (Bool-cases (item.id == 0x0021)) [
  | inl e ↦ rw e (
    read_reply c item.offset,
    refl,
    refl,
    refl,
    λ i below. rw (five i) (get_or-drop item.offset c i 0),
    refl,
  )
  | inr e ↦ absurd (none_there item.offset (rw e at h))
]
  where
    five : (i : ℕ) → get_or (read_reply c item.offset) (5 + i) 0 ≡ get_or (drop item.offset c) i 0
    five i =
        get_or-append_right (2 ∷ 0x61 ∷ 0x08 ∷ 0 ∷ (length c - item.offset) ∷ [])
          (drop item.offset c) i 0

    none_there : (n : ℕ) → n < 0 → ⊥
    none_there n x = omega arith

writes_items :
    (c : List ℕ) (item : NvItem)
    → 0 < item.len
    → item.offset + item.len ≤ length (items c item.id)
    → (pkt : List ℕ) × (reply_to react c (nv_write_message item) ≡ some pkt)
      × (get_or pkt 3 0 ≡ 0)
      × ((j : ℕ)
          → items (react c (nv_write_message item)).0 j ≡ (
              if j == item.id
              then copy_in (items c item.id) item.offset (copy_out item.value 0 item.len)
              else items c j))
unfolding reply_to nv_write_message first_answer to_le
writes_items c item h k = elim (Bool-cases (item.id == 0x0021)) [
  | inl e ↦
      (1 ∷ 0x61 ∷ 0x09 ∷ 0 ∷ [], refl, refl, λ j. rw ((==_iff item.id 0x0021).0 e) (ground arith))
  | inr e ↦ absurd (none_there (item.offset + item.len) (omega arith) (rw e at k))
]
  where
    none_there : (n : ℕ) → 0 < n → n ≤ 0 → ⊥
    none_there n x y = omega arith

keeps_items : KeepsItems react items
keeps_items = record { reads = reads_items; writes = writes_items }

-- Channel 15 in byte 22; no request is under way.
abbrev link : Link (List ℕ)
link = record {
  chip = replicate 22 0 ++ (15 ∷ replicate 97 0);
  channels = λ s. record (open_channel 0 false false) { busy = false };
  resets = 0;
}

abbrev memory : NvItem
memory = record { status = 7; id = 7; offset = 7; len = 7; value = replicate 256 0xaa }

get-set_nwk_update_id_example :
    ((set_nwk_update_id react memory link 5).2 ≡ success)
    × ((get_nwk_update_id react memory (set_nwk_update_id react memory link 5).0 9).1 ≡ 5)
    × ((get_nwk_update_id react memory (set_nwk_update_id react memory link 5).0 9).2 ≡ success)
    × ((get_channel react memory (set_nwk_update_id react memory link 5).0 9).1 ≡ 15)
    × ((get_channel react memory (set_nwk_update_id react memory link 5).0 9).2 ≡ success)
get-set_nwk_update_id_example =
    get-set_nwk_update_id react items keeps_items memory refl link 5 9 (omega arith, refl)
      (omega arith) (omega arith)
