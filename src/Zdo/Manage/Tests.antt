-- ===== src/Zdo/Manage/Tests.antt =====
-- A lamp leaves, and answers.
use kappaio.Common.{ℕ, ◌≡◌, refl, List, [], ◌∷◌, none, some, replicate}
use kappaio.Common.Words.{from_le}
use kappaio.Aps.Message.{proxy_rd, copy_out, get_field}
use kappaio.Aps.Message.Incoming.{offsets_in, widths_in}
use kappaio.Aps.Model.{Device, new_device_of}
use kappaio.Aps.Peer.{Library}
use kappaio.Zdo.Archive.{no_saved_device}
use kappaio.Zdo.Join.{State, answer}
use kappaio.Zdo.Manage.{Forgotten, status_of, mgmt_leave_req, mgmt_leave_req-Forgotten}

abbrev lamp : Device
lamp = record (new_device_of 0x1234) { ieee_id = 0x0102030405060708 }

abbrev gateway : State
gateway = record {
  counter = 3;
  assocs = lamp ∷ new_device_of 7 ∷ [];
  archive = no_saved_device 0x0102030405060708 ∷ [];
}

abbrev memory : List ℕ
memory = replicate 255 0

abbrev leave_rsp : List ℕ
leave_rsp =
    0 ∷ 0 ∷ 0x34 ∷ 0x80 ∷ 0x34 ∷ 0x12 ∷ 0 ∷ 0 ∷ 0 ∷ 90 ∷ 0 ∷ 1 ∷ 2 ∷ 3 ∷ 4 ∷ 9 ∷ 2 ∷ 3 ∷ 0 ∷ []

abbrev no_files : Library ℕ
no_files = record { attributes_of = λ i. none; data_type = λ n. none }

mgmt_leave_req-Forgotten_example :
    Forgotten 0x0102030405060708 gateway
      (mgmt_leave_req no_files [] memory (λ request. leave_rsp ∷ []) 0x0102030405060708 gateway).0
    × ((mgmt_leave_req no_files [] memory (λ request. leave_rsp ∷ []) 0x0102030405060708 gateway).1
        ≡ some 0)
unfolding status_of answer get_field offsets_in widths_in proxy_rd copy_out from_le
mgmt_leave_req-Forgotten_example =
    mgmt_leave_req-Forgotten no_files [] memory (λ request. leave_rsp ∷ []) 0x0102030405060708
      gateway refl (λ request. (refl, tt))
