-- ===== src/Aps/Af.antt =====
-- The packets of the AF subsystem on their way to the two data services: `MT_AfCommandProcessing` of
-- src/hal/source/mtaf.cpp, and src/aps/include/aps_data_service_ext_impl.hpp, whose receivers work as those of
-- aps_data_service_impl.hpp do. A call of a handler that is not registered is the result `none`.
pub mod Requests
pub mod Laws
mod Tests
use kappaio.Common.{
  ℕ, Bool, true, List, [], ◌∷◌, Option, none, some, ◌>>=◌, get_or, ◌==◌, if◌then◌else◌,
}
use kappaio.Aps.Message.Incoming.{load_str}
use kappaio.Aps.DataService.{Buffer, Delivery, aps_message_indicate, request}

-- The two `buffer__`, and whether `incommingMessageHandle` and `incommingMessageHandle_EXT` are set.
pub record Services : Type 0 where
  pub buffer : Buffer (List ℕ)
  pub buffer_ext : Buffer (List ℕ)
  pub handle : Bool
  pub handle_ext : Bool

-- What a packet leads to; `unknown` is `MT_RPC_ERR_COMMAND_ID`.
pub data Effect : Type 0 where
  delivered : Delivery → Effect
  delivered_ext : Delivery → Effect
  released : Effect
  unknown : Effect

-- `register_AFMessage_cb` and `register_AFMessage_EXT_cb` with the services' handlers.
unfoldable pub register_af_message_cb : Services → Services
register_af_message_cb s = record s { handle = true }

unfoldable pub register_af_message_ext_cb : Services → Services
register_af_message_ext_cb s = record s { handle_ext = true }

-- `apsMessageIndicate` of the extended service: the calls of an endpoint's handler are commented out.
unfoldable pub aps_message_indicate_ext : Buffer (List ℕ) → List ℕ → Buffer (List ℕ) × Delivery
aps_message_indicate_ext ns msg = aps_message_indicate (λ m. none) ns msg

-- `request` of the extended service.
unfoldable pub request_ext :
    ℕ
    → Buffer (List ℕ)
    → (List ℕ → Bool)
    → ℕ
    → List (List ℕ)
    → List (List ℕ)
    → Option (Buffer (List ℕ) × List Delivery × List (List ℕ))
request_ext h ns pred cb early late = request (λ m. none) h ns pred cb early late

-- The endpoints' handlers, and the uninitialised arrays of the messages.
module _ (message_handler : List ℕ → Option ℕ) (memory memory_ext : List ℕ) where
  unfoldable pub mtaf_incoming_msg_proc : List ℕ → Services → Option (Services × Effect)
  mtaf_incoming_msg_proc pkt s =
      let (ns, d) = aps_message_indicate message_handler s.buffer (load_str memory pkt) in
      if s.handle then some (record s { buffer = ns }, delivered d) else none

  unfoldable pub mtaf_incoming_msg_ext_proc : List ℕ → Services → Option (Services × Effect)
  unfolding aps_message_indicate_ext
  mtaf_incoming_msg_ext_proc pkt s =
      let (ns, d) = aps_message_indicate_ext s.buffer_ext (load_str memory_ext pkt) in
      if s.handle_ext then some (record s { buffer_ext = ns }, delivered_ext d) else none

  unfoldable pub mt_af_command_processing : List ℕ → Services → Option (Services × Effect)
  mt_af_command_processing pkt s =
      if get_or pkt 2 0 == 0x81
      then mtaf_incoming_msg_proc pkt s
      else (if get_or pkt 2 0 == 0x82
          then mtaf_incoming_msg_ext_proc pkt s
          else (if get_or pkt 2 0 == 0x01 then some (s, released) else some (s, unknown)))

  -- Packets one after another.
  unfoldable pub process_packets : List (List ℕ) → Services → Option (Services × List Effect)
  process_packets [] s = some (s, [])
  process_packets (pkt ∷ pkts) s = do
    p ← mt_af_command_processing pkt s
    q ← process_packets pkts p.0
    some (q.0, p.1 ∷ q.1)
