-- ===== src/Hal/Nv/Laws.antt =====
-- What is written to the processor's non-volatile memory is read from it again.
use kappaio.Common.{
  ℕ, ◌+◌, ◌-◌, ◌≤◌, ◌<◌, ◌≡◌, ap, sym, ◌∙◌, false, List, [], ◌∷◌, some, get_or, set, length,
  length-set, get_or-set_self, get_or-set_ne, ◌==◌, if◌then◌else◌, not, ◌&&◌, arith,
}
use kappaio.Aps.Message.{copy_out, copy_in}
use kappaio.Aps.Message.Send.{length-copy_out}
use kappaio.Aps.Message.Incoming.{get_or-copy_in, get_or-copy_out}
use kappaio.Hal.Request.{
  React, Link, Outcome, answered, reply_to, IsFree, outcome_for, mt_request, mt_request-outcome,
  mt_request-chip, mt_request-IsFree,
}
use kappaio.Hal.Nv.{
  NvItem, success, nv_read_message, nv_write_message, nv_read_item, nv_written_item, is_success,
  osal_nv_read, osal_nv_write, item_of, nib_byte, get_channel, get_nwk_update_id, set_nwk_update_id,
}

-- What the processor's documentation says of the commands SYS_OSAL_NV_READ and SYS_OSAL_NV_WRITE for an
-- item that exists and, from the offset on, has at most 246 bytes: the first answers with status 0, the count of
-- the bytes and the bytes, the second with status 0.
pub record KeepsItems {Chip : Type 0} (react : React Chip) (items : Chip → ℕ → List ℕ)
    : Type 0 where
  pub reads :
      (c : Chip) (item : NvItem)
      → item.offset < length (items c item.id)
      → length (items c item.id) ≤ item.offset + 246
      → (pkt : List ℕ) × (reply_to react c (nv_read_message item) ≡ some pkt)
        × (get_or pkt 3 0 ≡ 0)
        × (get_or pkt 4 0 ≡ length (items c item.id) - item.offset)
        × ((i : ℕ)
            → i < length (items c item.id) - item.offset
            → get_or pkt (5 + i) 0 ≡ get_or (items c item.id) (item.offset + i) 0)
        × (items (react c (nv_read_message item)).0 ≡ items c)
  pub writes :
      (c : Chip) (item : NvItem)
      → 0 < item.len
      → item.offset + item.len ≤ length (items c item.id)
      → (pkt : List ℕ) × (reply_to react c (nv_write_message item) ≡ some pkt)
        × (get_or pkt 3 0 ≡ 0)
        × ((j : ℕ)
            → items (react c (nv_write_message item)).0 j ≡ (
                if j == item.id
                then copy_in (items c item.id) item.offset (copy_out item.value 0 item.len)
                else items c j))

at_start : (xs : List ℕ) (i : ℕ) → get_or xs (0 + i) 0 ≡ get_or xs i 0
at_start xs i = ap (λ k. get_or xs k 0) (omega arith)

-- One byte written at 109.
length-write : (d : List ℕ) (v : ℕ) → length (copy_in d 109 (v ∷ [])) ≡ length d
unfolding copy_in
length-write d v = length-set d 109 v

get_or-write : (d : List ℕ) (v : ℕ) → 109 < length d → get_or (copy_in d 109 (v ∷ [])) 109 0 ≡ v
unfolding copy_in
get_or-write d v h = get_or-set_self d 109 v 0 h

get_or-write_ne : (d : List ℕ) (v : ℕ) → get_or (copy_in d 109 (v ∷ [])) 22 0 ≡ get_or d 22 0
unfolding copy_in
get_or-write_ne d v = get_or-set_ne d 109 22 v 0 (λ e. omega arith)

-- The byte that `nib_byte` takes from the outcome of its request.
abbrev byte_of : ℕ → NvItem → ℕ → Outcome → ℕ
byte_of i item old o =
    if is_success (nv_read_item item o).1 && not ((nv_read_item item o).0.len == 0)
    then get_or (nv_read_item item o).0.value i 0
    else old

byte_of-answered :
    (i : ℕ) (item : NvItem) (old : ℕ) (r : List ℕ)
    → i < get_or r 1 0
    → get_or r 1 0 ≤ length item.value
    → byte_of i item old (answered r) ≡ get_or r (2 + i) 0
unfolding nv_read_item is_success
byte_of-answered i item old r h room = rw some_bytes (
    sym (at_start (copy_in item.value 0 (copy_out r 2 (get_or r 1 0))) i)
    ∙ get_or-copy_in item.value (copy_out r 2 (get_or r 1 0)) 0 i
        (omega (arith, length-copy_out r 2 (get_or r 1 0)))
        (omega (arith, length-copy_out r 2 (get_or r 1 0)))
    ∙ get_or-copy_out r 2 (get_or r 1 0) i h)
  where
    some_bytes : (get_or r 1 0 == 0) ≡ false
    some_bytes = ground arith

module _ {Chip : Type 0} (react : React Chip) (items : Chip → ℕ → List ℕ)
    (nv : KeepsItems react items) (memory : NvItem) (room : length memory.value ≡ 256) where
  -- Any byte of the item 0x0021.
  nib_byte-item :
      (l : Link Chip) (i old : ℕ)
      → IsFree l 0x21
      → i < length (items l.chip 0x0021)
      → length (items l.chip 0x0021) ≤ 246
      → ((nib_byte react i memory l old).1 ≡ get_or (items l.chip 0x0021) i 0)
        × ((nib_byte react i memory l old).2 ≡ success)
  unfolding nib_byte osal_nv_read nv_read_item nv_read_message
  nib_byte-item l i old free within small =
      let item = item_of react memory 0x0021 0 0 in
      let a = nv.reads l.chip item (omega arith) (omega arith) in
      let r = copy_out a.0 3 256 in
      let o : (mt_request react 256 l (nv_read_message item)).1 ≡ answered r =
        mt_request-outcome react 256 l (nv_read_message item) free ∙ ap (outcome_for 256) a.1 in
      let count : get_or r 1 0 ≡ length (items l.chip 0x0021) =
        get_or-copy_out a.0 3 256 1 (omega arith) ∙ a.3 ∙ omega arith in
      let here : get_or r (2 + i) 0 ≡ get_or a.0 (3 + (2 + i)) 0 =
        get_or-copy_out a.0 3 256 (2 + i) (omega arith) in
      let moved : get_or a.0 (3 + (2 + i)) 0 ≡ get_or a.0 (5 + i) 0 =
        ap (λ k. get_or a.0 k 0) (omega arith) in
      (
        ap (byte_of i item old) o
            ∙ byte_of-answered i item old r (omega (arith, count)) (omega (arith, count, room))
            ∙ here
            ∙ moved
            ∙ a.4 i (omega arith)
            ∙ at_start (items l.chip 0x0021) i,
        ap (λ x. (nv_read_item item x).1) o,
      )

  -- `setNwkUpdateId` with a byte, on a free channel, where the item 0x0021 has from 110 to 246 bytes: it reports
  -- success, `getNwkUpdateId` after it gives this byte, and `getChannel` after it gives what byte 22 of the
  -- item was before.
  pub get-set_nwk_update_id :
      (l : Link Chip) (v old : ℕ)
      → IsFree l 0x21
      → 109 < length (items l.chip 0x0021)
      → length (items l.chip 0x0021) ≤ 246
      → ((set_nwk_update_id react memory l v).2 ≡ success)
        × ((get_nwk_update_id react memory (set_nwk_update_id react memory l v).0 old).1 ≡ v)
        × ((get_nwk_update_id react memory (set_nwk_update_id react memory l v).0 old).2 ≡ success)
        × ((get_channel react memory (set_nwk_update_id react memory l v).0 old).1
            ≡ get_or (items l.chip 0x0021) 22 0)
        × ((get_channel react memory (set_nwk_update_id react memory l v).0 old).2 ≡ success)
  unfolding set_nwk_update_id get_nwk_update_id get_channel osal_nv_write nv_written_item
      nv_write_message copy_out
  get-set_nwk_update_id l v old free within small =
      let item = update_item v in
      let d = items l.chip 0x0021 in
      let a = nv.writes l.chip item (omega arith) (omega arith) in
      let l' = (mt_request react 256 l (nv_write_message item)).0 in
      let free' : IsFree l' 0x21 = mt_request-IsFree react 256 l (nv_write_message item) free in
      let byte : get_or (set memory.value 0 v) 0 0 ≡ v =
        get_or-set_self memory.value 0 v 0 (omega (arith, room)) in
      let kept : items l'.chip 0x0021 ≡ copy_in d 109 (v ∷ []) =
        ap (λ c. items c 0x0021) (mt_request-chip react 256 l (nv_write_message item) free)
        ∙ a.3 0x0021
        ∙ ap (λ b. copy_in d 109 (b ∷ [])) byte in
      let long : length (items l'.chip 0x0021) ≡ length d = ap length kept ∙ length-write d v in
      let id = nib_byte-item l' 109 old free' (omega (arith, long)) (omega (arith, long)) in
      let channel = nib_byte-item l' 22 old free' (omega (arith, long)) (omega (arith, long)) in
      (
        ap (λ o. (nv_written_item item o).1)
            (mt_request-outcome react 256 l (nv_write_message item) free
              ∙ ap (outcome_for 256) a.1),
        id.0 ∙ ap (λ xs. get_or xs 109 0) kept ∙ get_or-write d v (omega arith),
        id.1,
        channel.0 ∙ ap (λ xs. get_or xs 22 0) kept ∙ get_or-write_ne d v,
        channel.1,
      )
    where
      update_item : ℕ → NvItem
      update_item w = record (item_of react memory 0x0021 109 1) { value = set memory.value 0 w }
