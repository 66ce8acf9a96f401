-- ===== src/Aps/Af/Requests.antt =====
-- What src/hal/source/mtaf.cpp sends to the processor besides data: the registration of an endpoint and the settings
-- of messages between networks.
use kappaio.Common.{ℕ, [], ◌∷◌, ◌++◌}
use kappaio.Common.Words.{to_le}
use kappaio.Hal.Request.{Message}

-- `register_endpoint_TI`, with the lists of clusters empty.
unfoldable pub register_endpoint_ti : ℕ → ℕ → ℕ → ℕ → Message
register_endpoint_ti endpoint_id profile_id device_id device_ver = record {
  cmd_type = 0x24;
  cmd_id = 0x00;
  sent_data =
      (endpoint_id ∷ to_le 2 profile_id) ++ to_le 2 device_id ++ (device_ver ∷ 0 ∷ 0 ∷ 0 ∷ []);
}

-- `register_interpan_cb_TI`, `interPanSet` and `intraPanSet`
unfoldable pub register_interpan_cb_ti : ℕ → Message
register_interpan_cb_ti ep = record { cmd_type = 0x24; cmd_id = 0x10; sent_data = 2 ∷ ep ∷ [] }

unfoldable pub inter_pan_set : ℕ → Message
inter_pan_set ch = record { cmd_type = 0x24; cmd_id = 0x10; sent_data = 1 ∷ ch ∷ [] }

unfoldable pub intra_pan_set : Message
intra_pan_set = record { cmd_type = 0x24; cmd_id = 0x10; sent_data = 0 ∷ [] }
