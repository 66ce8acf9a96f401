-- ===== src/Aps/DataService.antt =====
-- Who gets an incoming message: the list of receivers of src/aps/include/aps_data_service_impl.hpp,
-- requests that wait for their answer, and the endpoints that take what nobody waits for.
pub mod Wait
pub mod Remove
mod Tests
use kappaio.Common.{
  ℕ, ◌+◌, Bool, true, false, List, [], ◌∷◌, ◌++◌, Option, none, some, ◌==◌, if◌then◌else◌,
}

-- The messages; the predicates of the receivers are functions of them.
module _ (M : Type 0) where
  -- A `MsgRcvr_`: the predicate, the callback by a name, and the two flags of `SyncInfo`.
  pub record Receiver : Type 0 where
    pub pred : M → Bool
    pub cb : ℕ
    pub sync : Bool
    pub rdy : Bool

  -- A node of the `forward_list`, at an address that the iterators to it hold.
  pub record Node : Type 0 where
    pub address : ℕ
    pub receiver : Receiver

  -- `HandlerBuffer`
  abbrev pub Buffer : Type 0
  Buffer = List Node

module _ {M : Type 0} where
  -- `SyncInfo::arm` and `SyncInfo::disarm`
  abbrev pub arm : Receiver M → Receiver M
  arm r = record r { sync = true; rdy = false }

  abbrev pub disarm : Receiver M → Receiver M
  disarm r = if r.sync then record r { sync = false; rdy = true } else r

  -- The receiver that a handle's iterator points to; `none` when its node is freed.
  unfoldable pub receiver_at : ℕ → Buffer M → Option (Receiver M)
  receiver_at h [] = none
  receiver_at h (n ∷ ns) = if n.address == h then some n.receiver else receiver_at h ns

  -- A write through the iterator.
  unfoldable pub put_receiver : ℕ → Receiver M → Buffer M → Buffer M
  put_receiver h r [] = []
  put_receiver h r (n ∷ ns) =
      if n.address == h then record n { receiver = r } ∷ ns else n ∷ put_receiver h r ns

  -- `TxHandle::TxHandle`; `h` is the address of the new node.
  unfoldable pub register_handlers : ℕ → (M → Bool) → ℕ → Buffer M → Buffer M
  register_handlers h pred cb ns =
      record { address = h; receiver = record { pred = pred; cb = cb; sync = false; rdy = false } }
      ∷ ns

  -- `TxHandle::arm`
  unfoldable pub arm_at : ℕ → Buffer M → Buffer M
  arm_at h [] = []
  arm_at h (n ∷ ns) =
      if n.address == h then record n { receiver = arm n.receiver } ∷ ns else n ∷ arm_at h ns

  -- `TxHandle::remove` swaps the contents of the handle's node with those of the first, and frees the
  -- first. `none` is a use of a freed node.
  unfoldable pub remove_with : ℕ → Buffer M → Option (Receiver M) → Option (Buffer M)
  remove_with h [] r = none
  remove_with h (n ∷ ns) none = none
  remove_with h (n ∷ ns) (some r) =
      some (if n.address == h then ns else put_receiver h n.receiver ns)

  unfoldable pub remove_handler : ℕ → Buffer M → Option (Buffer M)
  remove_handler h ns = remove_with h ns (receiver_at h ns)

  -- `indicate`: the first receiver whose predicate holds is called; the result names its callback.
  unfoldable pub indicate : Buffer M → M → Buffer M × Option ℕ
  indicate [] msg = ([], none)
  indicate (n ∷ ns) msg =
      let (rest, served) = indicate ns msg in
      if n.receiver.pred msg
      then (record n { receiver = disarm n.receiver } ∷ ns, some n.receiver.cb)
      else (n ∷ rest, served)

-- What an incoming message leads to.
pub data Delivery : Type 0 where
  to_receiver : ℕ → Delivery
  to_endpoint : ℕ → Delivery
  dropped : Delivery

-- `apsMessageIndicate` after `indicate`, with the handler of the message's endpoint, if there is such an
-- endpoint and it has one.
unfoldable pub fall_back : Option ℕ → Option ℕ → Delivery
fall_back (some cb) handler = to_receiver cb
fall_back none (some handler) = to_endpoint handler
fall_back none none = dropped

-- What a wait leaves; `left` has the messages that came after it was over.
module _ (M : Type 0) where
  pub record Waited : Type 0 where
    pub buffer : Buffer M
    pub deliveries : List Delivery
    pub left : List M
    pub ready : Bool

module _ {M : Type 0} where
  unfoldable pub is_ready : Option (Receiver M) → Bool
  is_ready none = false
  is_ready (some r) = r.rdy

  unfoldable pub is_sync : Option (Receiver M) → Bool
  is_sync none = false
  is_sync (some r) = r.sync

  unfoldable pub after_delivery : Delivery → Waited M → Waited M
  after_delivery d w = record w { deliveries = d ∷ w.deliveries }

-- The endpoints' handlers, by message.
module _ {M : Type 0} (message_handler : M → Option ℕ) where
  unfoldable pub aps_message_indicate : Buffer M → M → Buffer M × Delivery
  aps_message_indicate ns msg =
      let (ns', served) = indicate ns msg in (ns', fall_back served (message_handler msg))

  -- Messages that come in one after another.
  unfoldable pub indicate_all : Buffer M → List M → Buffer M × List Delivery
  indicate_all ns [] = (ns, [])
  indicate_all ns (msg ∷ msgs) =
      let (ns', d) = aps_message_indicate ns msg in
      let (ns'', ds) = indicate_all ns' msgs in (ns'', d ∷ ds)

  -- The wait of `SyncInfo::wait_for`, while the messages of the list come in; the list's end is the
  -- timeout.
  unfoldable pub wait_until : ℕ → Buffer M → List M → Waited M
  wait_until h ns [] = record {
    buffer = ns;
    deliveries = [];
    left = [];
    ready = is_ready (receiver_at h ns);
  }
  wait_until h ns (msg ∷ msgs) =
      let (ns', d) = aps_message_indicate ns msg in
      let rest = wait_until h ns' msgs in
      if is_ready (receiver_at h ns)
      then record { buffer = ns; deliveries = []; left = msg ∷ msgs; ready = true }
      else after_delivery d rest

  unfoldable pub wait_for : ℕ → Buffer M → List M → Waited M
  wait_for h ns msgs =
      if is_sync (receiver_at h ns)
      then wait_until h ns msgs
      else record { buffer = ns; deliveries = []; left = msgs; ready = false }

  -- `request` with an answer. `early` comes in before the wait begins, `late` from then on. The
  -- result is the buffer, the deliveries, and the messages that are still to come.
  unfoldable pub finish : ℕ → List Delivery → Waited M → Option (Buffer M × List Delivery × List M)
  finish h before w = close (remove_handler h w.buffer)
    where
      close : Option (Buffer M) → Option (Buffer M × List Delivery × List M)
      close none = none
      close (some ns) = some (ns, before ++ w.deliveries, w.left)

  unfoldable pub request :
      ℕ → Buffer M → (M → Bool) → ℕ → List M → List M → Option (Buffer M × List Delivery × List M)
  request h ns pred cb early late =
      let (ns', before) = indicate_all (arm_at h (register_handlers h pred cb ns)) early in
      finish h before (wait_for h ns' late)
