-- ===== src/Serial/Channel.antt =====
-- Requests and their responses: `mtSend` and `mtRecv` of src/hal/source/mt_helper.cpp. A request
-- holds the semaphore of its subsystem until the response has come or a second has passed.
pub mod Laws
mod Tests
use kappaio.Common.{
  ℕ, ◌%◌, Bool, true, false, List, [], ◌∷◌, Option, none, some, get_or, ◌==◌, if◌then◌else◌, ◌||◌,
  not, ltb,
}
use kappaio.Serial.Dispatch.{subsystem_of}

-- The integers that `mtSend` and `mtRecv` return.
pub data Status : Type 0 where
  failed ok no_buffer : Status

-- `mtMessageResource_s`. `stored` is what `*returnBuffer` holds since the request, `given` what the
-- callback was called with.
pub record Channel : Type 0 where
  pub busy : Bool
  pub rsp_cmd_id : ℕ
  pub has_buffer : Bool
  pub has_callback : Bool
  pub stored : Option (List ℕ)
  pub given : Option (List ℕ)
  pub send_status : Status

-- `mtMessageResource`, by subsystem: an array of 16, of which the last is never initialised. Only the values below 15
-- stand for something.
abbrev pub Channels : Type 0
Channels = ℕ → Channel

abbrev pub update : Channels → ℕ → Channel → Channels
update chs s c j = if j == s then c else chs j

-- `recvThread`
unfoldable pub recv_thread : Channel → List ℕ → Channel × Status
recv_thread c pkt =
    if c.has_callback
    then (record c { given = some pkt; send_status = ok }, ok)
    else (if c.has_buffer
        then (record c { stored = some pkt; send_status = ok }, ok)
        else (record c { send_status = no_buffer }, no_buffer))

-- `mtRecv` on the channel that it selects: a packet with another command, or one that nobody waits
-- for, is refused.
unfoldable pub recv_on : Channel → List ℕ → Channel × Status
recv_on c pkt =
    if get_or pkt 2 0 == c.rsp_cmd_id
    then (if c.busy then recv_thread c pkt else (c, failed))
    else (c, failed)

abbrev pub is_channel : ℕ → Bool
is_channel s = ltb s 15

-- The dispatcher hands no packet of another subsystem to a handler (Serial/Dispatch).
unfoldable pub mt_recv : Channels → List ℕ → Channels × Status
mt_recv chs pkt =
    let s = subsystem_of (get_or pkt 1 0) in
    let (c, st) = recv_on (chs s) pkt in
    if is_channel s then (update chs s c, st) else (chs, failed)

-- `sendThread`: it waits for the signal of `recvThread` on this channel, while the packets of the
-- list arrive one by one. The end of the list is the timeout, at which the port is opened anew.
pub record Wait : Type 0 where
  pub channels : Channels
  pub reset : Bool

unfoldable pub is_failed : Status → Bool
is_failed failed = true
is_failed ok = false
is_failed no_buffer = false

unfoldable pub send_thread : ℕ → Channels → List (List ℕ) → Wait
send_thread s chs [] = record { channels = chs; reset = true }
send_thread s chs (pkt ∷ pkts) =
    let (chs', st) = mt_recv chs pkt in
    let rest = send_thread s chs' pkts in
    if not (subsystem_of (get_or pkt 1 0) == s) || is_failed st
    then rest
    else record { channels = chs'; reset = false }

-- `mtSend` returns at once if there is neither buffer nor callback; it would block while the
-- channel is busy. `outside` is the use of a semaphore that is not initialised, or behind the array.
pub data Sent : Type 0 where
  sent : Status → Channels → Bool → Sent
  blocked : Sent
  outside : Sent

-- The fields that a request sets.
unfoldable pub open_channel : ℕ → Bool → Bool → Channel
open_channel rsp_cmd_id buffer cb = record {
  busy = true;
  rsp_cmd_id = rsp_cmd_id;
  has_buffer = buffer;
  has_callback = cb;
  stored = none;
  given = none;
  send_status = failed;
}

unfoldable pub release : ℕ → Wait → Sent
release s w =
    sent (w.channels s).send_status (update w.channels s (record (w.channels s) { busy = false }))
      w.reset

unfoldable pub mt_send : Channels → ℕ → ℕ → Bool → Bool → List (List ℕ) → Sent
mt_send chs cmd_type rsp_cmd_id buffer cb arrivals =
    if not (buffer || cb)
    then sent ok chs false
    else (if is_channel (subsystem_of cmd_type)
        then (if (chs (subsystem_of cmd_type)).busy
            then blocked
            else release (subsystem_of cmd_type) (
                send_thread (subsystem_of cmd_type)
                  (update chs (subsystem_of cmd_type) (open_channel rsp_cmd_id buffer cb))
                  arrivals))
        else outside)
