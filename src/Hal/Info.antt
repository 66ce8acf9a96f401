-- ===== src/Hal/Info.antt =====
-- Questions to the processor: src/hal/source/mtutil.cpp, `mt_getextaddr_req` of src/hal/source/mtsys.cpp, and the
-- functions of src/hal/source/hal.cpp that read their answers. Where the code takes the answer without a look at
-- the result, the buffer may hold what it held before, which is a parameter `memory`.
pub mod Laws
mod Tests
use kappaio.Common.{ℕ, ◌+◌, List, [], ◌∷◌, ◌++◌, Option, none, some, drop}
use kappaio.Common.Words.{to_le, from_le}
use kappaio.Aps.Message.{copy_out}
use kappaio.Hal.Request.{Message, React, Link, Outcome, no_answer, answered, waiting, mt_request}

unfoldable pub ext_addr_message : Message
ext_addr_message = record { cmd_type = 0x21; cmd_id = 0x04; sent_data = [] }

unfoldable pub assoc_with_address_message : ℕ → Message
assoc_with_address_message ext = record {
  cmd_type = 0x27;
  cmd_id = 0x4a;
  sent_data = to_le 8 ext ++ (0 ∷ 0 ∷ []);
}

-- The second byte is not set: the code writes the last relation to `pData[2]`, behind the two that are sent.
unfoldable pub assoc_count_message : ℕ → Message
assoc_count_message stack = record { cmd_type = 0x27; cmd_id = 0x48; sent_data = 0 ∷ stack ∷ [] }

unfoldable pub assoc_find_message : ℕ → Message
assoc_find_message index = record { cmd_type = 0x27; cmd_id = 0x49; sent_data = index ∷ [] }

unfoldable pub device_info_message : Message
device_info_message = record { cmd_type = 0x27; cmd_id = 0x00; sent_data = [] }

unfoldable pub nwk_addr_lookup_message : ℕ → Message
nwk_addr_lookup_message nwk = record { cmd_type = 0x27; cmd_id = 0x41; sent_data = to_le 2 nwk }

unfoldable pub nv_info_message : Message
nv_info_message = record { cmd_type = 0x27; cmd_id = 0x01; sent_data = [] }

-- The widths of the fields, in the order of the answer: of `associated_devices_t` shortAddr, addrIdx, nodeRelation,
-- devStatus, assocCnt, age, and in its link txCounter, txCost, rxLqi, inKeySeqNum, inFrmCntr, txFailure.
unfoldable pub assoc_widths : List ℕ
assoc_widths = 2 ∷ 2 ∷ 1 ∷ 1 ∷ 1 ∷ 1 ∷ 1 ∷ 1 ∷ 1 ∷ 1 ∷ 4 ∷ 2 ∷ []

-- Of `mt_device_info_t`: status, IEEEAddr, NwkAddr, DeviceType, DeviceState, NumAssocDevices.
unfoldable pub device_info_widths : List ℕ
device_info_widths = 1 ∷ 8 ∷ 2 ∷ 1 ∷ 1 ∷ 1 ∷ []

-- Of `NvInfo_t`: status, IEEEAddr, ScanChannels, PanId, SecurityLevel. The key is not read.
unfoldable pub nv_info_widths : List ℕ
nv_info_widths = 1 ∷ 8 ∷ 4 ∷ 2 ∷ 1 ∷ []

-- `rtn += _BYTES_TO_INT_(field, *rtn, width)`, field by field.
unfoldable pub read_fields : List ℕ → List ℕ → List ℕ
read_fields [] r = []
read_fields (w ∷ ws) r = from_le (copy_out r 0 w) ∷ read_fields ws (drop w r)

-- The fields, or `none` for -1; no return is `none` too.
unfoldable pub fields_of : List ℕ → Outcome → Option (List ℕ)
fields_of ws (answered r) = some (read_fields ws r)
fields_of ws no_answer = none
fields_of ws waiting = none

-- The buffer of a request whose result is not looked at.
unfoldable pub buffer_of : List ℕ → Outcome → List ℕ
buffer_of memory (answered r) = r
buffer_of memory no_answer = memory
buffer_of memory waiting = memory

unfoldable pub number_of : ℕ → ℕ → Outcome → ℕ
number_of width failed (answered r) = from_le (copy_out r 0 width)
number_of width failed no_answer = failed
number_of width failed waiting = failed

module _ {Chip : Type 0} (react : React Chip) where
  -- `mt_getextaddr_req`
  unfoldable pub get_ieee_id : List ℕ → Link Chip → Link Chip × ℕ
  get_ieee_id memory l =
      let r = mt_request react 256 l ext_addr_message in
      (r.0, from_le (copy_out (buffer_of memory r.1) 0 8))

  -- With `mtUtilAssocGetWithAddress`.
  unfoldable pub get_assoc_nwk_addr : List ℕ → Link Chip → ℕ → Link Chip × ℕ
  get_assoc_nwk_addr memory l ext =
      let r = mt_request react 256 l (assoc_with_address_message ext) in
      (r.0, from_le (copy_out (buffer_of memory r.1) 0 2))

  -- With `mtUtilAddrmgrNwkAddrLookup`.
  unfoldable pub get_assoc_ext_addr : Link Chip → ℕ → Link Chip × ℕ
  get_assoc_ext_addr l nwk =
      let r = mt_request react 8 l (nwk_addr_lookup_message nwk) in
      (r.0, number_of 8 0xffffffffffffffff r.1)

  -- With `mtUtilGetAssocCount`.
  unfoldable pub get_assoc_count : ℕ → Link Chip → Link Chip × Option (List ℕ)
  get_assoc_count stack l =
      let r = mt_request react 2 l (assoc_count_message stack) in (r.0, fields_of (2 ∷ []) r.1)

  -- With `mtUtilAssocFindDevice`.
  unfoldable pub get_assoc_info : Link Chip → ℕ → Link Chip × Option (List ℕ)
  get_assoc_info l index =
      let r = mt_request react 18 l (assoc_find_message index) in (r.0, fields_of assoc_widths r.1)

  -- With `mtUtilGetDeviceInfo`.
  unfoldable pub get_device_info : Link Chip → Link Chip × Option (List ℕ)
  get_device_info l =
      let r = mt_request react 256 l device_info_message in (r.0, fields_of device_info_widths r.1)

  -- `GetNvInfo`
  unfoldable pub get_nv_info : Link Chip → Link Chip × Option (List ℕ)
  get_nv_info l =
      let r = mt_request react 256 l nv_info_message in (r.0, fields_of nv_info_widths r.1)
