-- ===== src/Hal/Nv.antt =====
-- The processor's non-volatile memory: `OsalNvRead` and `OsalNvWrite` of src/hal/source/mtsys.cpp, and the
-- settings in it of src/hal/source/hal.cpp.
pub mod Laws
mod Tests
use kappaio.Common.{
  ℕ, ◌+◌, ◌%◌, Bool, true, false, List, [], ◌∷◌, ◌++◌, get_or, set, ltb, ◌==◌, if◌then◌else◌, ◌||◌,
  not, ◌&&◌,
}
use kappaio.Common.Words.{to_le}
use kappaio.Aps.Message.{copy_out, copy_in}
use kappaio.Hal.Request.{Message, React, Link, Outcome, no_answer, answered, waiting, mt_request}

-- 0, -1, or no return.
pub data Code : Type 0 where
  success failure stuck : Code

-- `NvItem_t`. `value` is an array of 256 bytes.
pub record NvItem : Type 0 where
  pub status : ℕ
  pub id : ℕ
  pub offset : ℕ
  pub len : ℕ
  pub value : List ℕ

unfoldable pub nv_read_message : NvItem → Message
nv_read_message item = record {
  cmd_type = 0x21;
  cmd_id = 0x08;
  sent_data = to_le 2 item.id ++ (item.offset ∷ []);
}

unfoldable pub nv_write_message : NvItem → Message
nv_write_message item = record {
  cmd_type = 0x21;
  cmd_id = 0x09;
  sent_data = to_le 2 item.id ++ (item.offset ∷ item.len ∷ copy_out item.value 0 item.len);
}

-- What `OsalNvRead` and `OsalNvWrite` make of the outcome.
unfoldable pub nv_read_item : NvItem → Outcome → NvItem × Code
nv_read_item item (answered r) = (
  record item {
    status = get_or r 0 0;
    len = get_or r 1 0;
    value = copy_in item.value 0 (copy_out r 2 (get_or r 1 0));
  },
  success,
)
nv_read_item item no_answer = (item, failure)
nv_read_item item waiting = (item, stuck)

unfoldable pub nv_written_item : NvItem → Outcome → NvItem × Code
nv_written_item item (answered r) = (record item { status = get_or r 0 0 }, success)
nv_written_item item no_answer = (item, failure)
nv_written_item item waiting = (item, stuck)

unfoldable pub is_success : Code → Bool
is_success success = true
is_success failure = false
is_success stuck = false

module _ {Chip : Type 0} (react : React Chip) where
  unfoldable pub osal_nv_read : Link Chip → NvItem → Link Chip × NvItem × Code
  osal_nv_read l item =
      let r = mt_request react 256 l (nv_read_message item) in
      (r.0, (nv_read_item item r.1).0, (nv_read_item item r.1).1)

  unfoldable pub osal_nv_write : Link Chip → NvItem → Link Chip × NvItem × Code
  osal_nv_write l item =
      let r = mt_request react 256 l (nv_write_message item) in
      if item.len == 0 || ltb 246 item.len
      then (l, item, failure)
      else (r.0, (nv_written_item item r.1).0, (nv_written_item item r.1).1)

  -- `nvItem` of the functions below, with what its memory held.
  abbrev pub item_of : NvItem → ℕ → ℕ → ℕ → NvItem
  item_of memory id offset len = record memory { id = id; offset = offset; len = len }

  -- One byte of the item 0x0021, at the index `i`, into a variable that held `old`.
  unfoldable pub nib_byte : ℕ → NvItem → Link Chip → ℕ → Link Chip × ℕ × Code
  unfolding is_success
  nib_byte i memory l old =
      let r = osal_nv_read l (item_of memory 0x0021 0 0) in
      (r.0, if is_success r.2 && not (r.1.len == 0) then get_or r.1.value i 0 else old, r.2)

  unfoldable pub get_channel : NvItem → Link Chip → ℕ → Link Chip × ℕ × Code
  get_channel = nib_byte 22

  unfoldable pub get_nwk_update_id : NvItem → Link Chip → ℕ → Link Chip × ℕ × Code
  get_nwk_update_id = nib_byte 109

  unfoldable pub set_nwk_update_id : NvItem → Link Chip → ℕ → Link Chip × NvItem × Code
  set_nwk_update_id memory l nwk_update_id =
      osal_nv_write l
        (record (item_of memory 0x0021 109 1) { value = set memory.value 0 nwk_update_id })

  unfoldable pub zcd_startup_options : NvItem → Link Chip → ℕ → Link Chip × NvItem × Code
  zcd_startup_options memory l options =
      osal_nv_write l (record (item_of memory 0x0003 0 1) { value = set memory.value 0 options })
