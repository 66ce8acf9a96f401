-- ===== src/Hal/Network.antt =====
-- The start of the network: `MT_ZDO_STARTUP_FROM_APP_Req`, `MT_ZdoCommandProcessing` and the device's state of
-- src/hal/source/mtzdo.cpp, with `start_zdo` of src/hal/source/hal.cpp.
pub mod Laws
mod Tests
use kappaio.Common.{
  ℕ, zero, suc, ◌+◌, Bool, true, false, List, [], ◌∷◌, get_or, ◌==◌, if◌then◌else◌, ◌||◌,
}
use kappaio.Serial.Dispatch.{subsystem_of}
use kappaio.Serial.Channel.{Channels, is_failed, mt_recv, update, open_channel}
use kappaio.Hal.Request.{Message, React, Link, mt_request}
use kappaio.Hal.Nv.{Code, success, failure}

-- The request channels and `devState`.
pub record Zdo : Type 0 where
  pub channels : Channels
  pub dev_state : ℕ

-- `zdoCoordReady`: DEV_ZB_COORD.
unfoldable pub zdo_coord_ready : Zdo → Bool
zdo_coord_ready z = z.dev_state == 0x09

-- `MTZDOStateChangeProc`
unfoldable pub state_change : Zdo → List ℕ → Zdo
state_change z pkt = record z { dev_state = get_or pkt 3 0 }

-- The commands with a case of their own: the state change, the announcement, the answers with the node descriptor,
-- the active endpoints and the simple descriptor, and those to a direct join and to permit joining.
unfoldable pub is_zdo_command : ℕ → Bool
is_zdo_command id =
    id == 0xc0
    || (id == 0xc1 || (id == 0x82 || (id == 0x85 || (id == 0x84 || (id == 0xb5 || id == 0xb6)))))

-- The new state, and whether MT_RPC_SUCCESS is returned.
unfoldable pub mt_zdo_command_processing : Zdo → List ℕ → Zdo × Bool
unfolding state_change is_zdo_command is_failed
mt_zdo_command_processing z pkt =
    let (chs, st) = mt_recv z.channels pkt in
    let z' : Zdo = record z { channels = chs } in
    if is_failed st
    then (
      (if get_or pkt 2 0 == 0xc0 then state_change z' pkt else z'),
      is_zdo_command (get_or pkt 2 0),
    )
    else (z', true)

unfoldable pub process_all : Zdo → List (List ℕ) → Zdo
process_all z [] = z
process_all z (pkt ∷ pkts) = process_all (mt_zdo_command_processing z pkt).0 pkts

-- The loop of `start_zdo`, with `n` of its 30 turns left and `t` gone. `arrivals t` are the packets for the ZDO
-- that arrive between the test before and the test of turn `t`.
unfoldable pub ready_loop : (ℕ → List (List ℕ)) → ℕ → ℕ → Zdo → Zdo × Code
ready_loop arrivals zero t z = (z, failure)
ready_loop arrivals (suc n) t z =
    let z' = process_all z (arrivals t) in
    let rest = ready_loop arrivals n (t + 1) z' in
    if zdo_coord_ready z' then (z', success) else rest

unfoldable pub startup_message : Message
startup_message = record { cmd_type = 0x25; cmd_id = 0x40; sent_data = 0 ∷ 0 ∷ [] }

-- The packets of a list that the dispatcher gives to the ZDO.
unfoldable pub for_zdo : List (List ℕ) → List (List ℕ)
for_zdo [] = []
for_zdo (pkt ∷ pkts) =
    let rest = for_zdo pkts in if subsystem_of (get_or pkt 1 0) == 5 then pkt ∷ rest else rest

module _ {Chip : Type 0} (react : React Chip) where
  -- `MT_ZDO_STARTUP_FROM_APP_Req`, whose result is not looked at.
  unfoldable pub mt_zdo_startup_from_app_req : Link Chip → Link Chip
  mt_zdo_startup_from_app_req l = (mt_request react 1 l startup_message).0

  -- What the packets that arrive after this request, its answer among them, do to the state: `mtRecv` sees the
  -- channel as the request has opened it.
  unfoldable pub state_after_startup : Link Chip → ℕ → ℕ
  state_after_startup l dev_state =
      (process_all
        (record {
          channels = update l.channels 5 (open_channel 0x40 true false);
          dev_state = dev_state;
        })
        (for_zdo (react l.chip startup_message).1)).dev_state

  unfoldable pub start_zdo : (ℕ → List (List ℕ)) → Link Chip → ℕ → Zdo × Code
  start_zdo arrivals l dev_state = ready_loop arrivals 30 0 (record {
    channels = (mt_zdo_startup_from_app_req l).channels;
    dev_state = state_after_startup l dev_state;
  })
