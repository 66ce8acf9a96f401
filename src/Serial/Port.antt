-- ===== src/Serial/Port.antt =====
-- The input side of src/hal/source/mtintf.c: `SerialRcv` fills a ring of 512 bytes, and
-- `MessageAssembler` cuts it into packets.
pub mod Ring
pub mod Receive
pub mod Search
pub mod Assemble
pub mod Packets
pub mod Stream
pub mod Faults
pub mod Noise
mod Tests
pub mod Progress
use kappaio.Common.{
  ℕ, zero, suc, ◌+◌, ◌-◌, ◌%◌, Bool, true, false, List, [], ◌∷◌, ◌++◌, get_or, set, length, ltb,
  leb, ◌==◌, if◌then◌else◌, ◌||◌,
}
use kappaio.Serial.Frame.{mt_sof, fcs_from}

-- SERIAL_BUFFER_MAX, PACKET_BUFFER_MAX, MIN_PACKET_LEN
abbrev pub serial_buffer_max : ℕ
serial_buffer_max = 512

abbrev pub packet_buffer_max : ℕ
packet_buffer_max = 256

abbrev pub min_packet_len : ℕ
min_packet_len = 5

-- `SERIAL_BUFFER_MAX_MASK & i`, the low nine bits.
abbrev pub mask : ℕ → ℕ
mask i = i % 512

-- SerBufIn, SerBufInHead, SerBufInLen. SerBufInTail is never read. SerBufInLen is an `int`, here modulo 2^32; its
-- comparisons are those of the code as long as it is not negative.
pub record Port : Type 0 where
  pub buf : List ℕ
  pub head : ℕ
  pub len : ℕ

-- What `read (fd, SerBufIn + tail, …)` puts into the buffer.
unfoldable pub write_at : List ℕ → ℕ → List ℕ → List ℕ
write_at buf i [] = buf
write_at buf i (x ∷ xs) = write_at (set buf i x) (i + 1) xs

-- One call of `read` in `SerialRcv` that returns the bytes `chunk`.
unfoldable pub read_chunk : Port → List ℕ → Port
read_chunk p chunk = record p {
  buf = write_at p.buf (mask (p.head + p.len)) chunk;
  len = p.len + length chunk;
}

-- The loop of `SerialRcv`: the list holds what the successive calls of `read` return. A call that
-- returns nothing, or an error, ends the loop.
unfoldable pub serial_rcv : Port → List (List ℕ) → Port
serial_rcv p [] = p
serial_rcv p ([] ∷ chunks) = p
serial_rcv p ((x ∷ xs) ∷ chunks) = serial_rcv (read_chunk p (x ∷ xs)) chunks

-- How the inner loop ends: at a SOF, with the position and `Offset`, or by the early return.
pub data Scan : Type 0 where
  found : ℕ → ℕ → Scan
  starved : Scan
  no_fuel : Scan

-- `while (SerBufIn[SerBufHeadTemp] != MT_SOF)`
unfoldable pub scan : ℕ → Port → ℕ → ℕ → Scan
scan zero p temp offset = no_fuel
scan (suc fuel) p temp offset =
    let temp' = mask (p.head + (offset + 1)) in
    let rest = scan fuel p temp' (offset + 1) in
    if get_or p.buf temp 0 == mt_sof
    then found temp offset
    else (if p.head == temp' || ltb p.len (offset + 1 + min_packet_len) then starved else rest)

-- `memcpy` of `n` bytes from index `i` of the buffer.
unfoldable pub copy : List ℕ → ℕ → ℕ → List ℕ
copy buf i zero = []
copy buf i (suc n) = get_or buf i 0 ∷ copy buf (i + 1) n

-- The packet, in one piece or in two where it wraps. `i` is the position of the length byte.
unfoldable pub packet : List ℕ → ℕ → ℕ → List ℕ
packet buf i frame_len =
    if leb frame_len (serial_buffer_max - i)
    then copy buf i frame_len
    else copy buf i (serial_buffer_max - i) ++ copy buf 0 (frame_len - (serial_buffer_max - i))

-- One round of the outer loop. `overrun` stands for a `memcpy` past the end of `PacketBuffer`, `spinning` for an
-- inner loop that is out of fuel.
pub data Round : Type 0 where
  stop : Round
  overrun : Round
  spinning : Round
  took : List ℕ → Port → ℕ → Round

-- `SerBufInLen -= n`
abbrev pub minus : ℕ → ℕ → ℕ
minus len n = (len + 4294967296 - n) % 4294967296

-- The round behind the scan, which ended at `temp`.
unfoldable pub take_packet : Port → ℕ → ℕ → Round
take_packet p temp offset =
    let i = mask (temp + 1) in
    let frame_len = get_or p.buf i 0 + 4 in
    if ltb p.len (frame_len + 1 + offset)
    then stop
    else (if ltb packet_buffer_max frame_len
        then overrun
        else took (packet p.buf i frame_len)
            (record p { len = minus p.len (frame_len + 1 + offset); head = mask (i + frame_len) })
            offset)

unfoldable pub after_scan : Port → Scan → Round
after_scan p (found temp offset) = take_packet p temp offset
after_scan p starved = stop
after_scan p no_fuel = spinning

-- The scan gives up before `Offset` reaches SerBufInLen, so that is fuel enough.
unfoldable pub round : Port → ℕ → Round
round p offset =
    if ltb p.len min_packet_len then stop else after_scan p (scan (p.len + 1) p p.head offset)

-- What `MessageAssembler` does: the packets that it hands to `ProcessIncommingMessage`, the port
-- that it leaves, and whether it came to its end.
pub data Ending : Type 0 where
  returned overran out_of_fuel : Ending

pub record Run : Type 0 where
  pub port : Port
  pub delivered : List (List ℕ)
  pub ending : Ending

-- A packet whose sum is not zero is dropped.
unfoldable pub deliver : List ℕ → Run → Run
deliver pkt r = if fcs_from 0 pkt == 0 then record r { delivered = pkt ∷ r.delivered } else r

-- What follows a round: the return, or the rest of the outer loop.
unfoldable pub resume : Port → (Port → ℕ → Run) → Round → Run
resume p rest stop = record { port = p; delivered = []; ending = returned }
resume p rest overrun = record { port = p; delivered = []; ending = overran }
resume p rest spinning = record { port = p; delivered = []; ending = out_of_fuel }
resume p rest (took pkt q offset) = deliver pkt (rest q offset)

-- The outer loop. `Offset` lives outside of it, and is not reset.
unfoldable pub assemble_from : ℕ → Port → ℕ → Run
assemble_from zero p offset = record { port = p; delivered = []; ending = out_of_fuel }
assemble_from (suc fuel) p offset = resume p (assemble_from fuel) (round p offset)

-- Each round that goes on takes at least five bytes. The code gives its mutex free between two rounds; a second call
-- that comes in between is not modelled.
unfoldable pub message_assembler : Port → Run
message_assembler p = assemble_from (p.len + 1) p 0
