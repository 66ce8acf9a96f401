-- ===== src/Serial/Port/Tests.antt =====
-- Runs of the port at fixed inputs, and the port's theorems at inputs that meet their hypotheses.
use kappaio.Common.{
  ℕ, ◌≡◌, ◌≢◌, ◌<◌, refl, List, [], ◌∷◌, ◌++◌, replicate, some, arith, get_or, length, map,
}
use kappaio.Serial.Frame.{build_and_send_cmd, cmd_fcs_cal, body, payload, fcs_from}
use kappaio.Serial.Frame.Laws.{frame, build_and_send_cmd-frame}
use kappaio.Serial.Port.{
  Port, overran, out_of_fuel, message_assembler, assemble_from, resume, round, scan, after_scan,
  take_packet, packet, copy, deliver, serial_rcv, read_chunk, write_at,
}
use kappaio.Serial.Port.Ring.{contents, IsValid, read_ring}
use kappaio.Serial.Port.Receive.{received, serial_rcv-contents, read_chunk_overflow}
use kappaio.Serial.Port.Progress.{message_assembler-ends, message_assembler-IsValid}
use kappaio.Serial.Port.Stream.{
  Command, packet_of, message, stream, HandsOn, loopback, message_assembler-stream,
}
use kappaio.Serial.Port.Faults.{damaged-HandsOn, long_frame_overruns}
use kappaio.Serial.Port.Noise.{noise-HandsOn, stale_offset-HandsOn, stale_offset_loss}

-- A ping of the ZigBee processor, `MT_SYS_PING`, and a command with two data bytes.
abbrev ping : Command
ping = record { cmd_type = 0x21; cmd_id = 0x01; payload = [] }

abbrev read_cmd : Command
read_cmd = record { cmd_type = 0x4d; cmd_id = 0x02; payload = 0x40 ∷ 0x00 ∷ [] }

ping_bytes : frame (message ping) ≡ 0xfe ∷ 0x00 ∷ 0x21 ∷ 0x01 ∷ 0x20 ∷ []
unfolding fcs_from
ping_bytes = refl

-- A port that is empty, and one that holds the bytes, in a ring that starts at `head`.
abbrev empty_port : ℕ → Port
empty_port head = record { buf = replicate 512 0; head = head; len = 0 }

abbrev loaded : List ℕ → Port
unfolding write_at
loaded bytes = record { buf = write_at (replicate 512 0) 3 bytes; head = 3; len = length bytes }

wrapped :
    (message_assembler (
      serial_rcv
        (empty_port 509)
        ((0xfe ∷ 0x00 ∷ 0x21 ∷ []) ∷ (0x01 ∷ 0x20 ∷ []) ∷ [] ∷ []))).delivered
    ≡ packet_of ping ∷ []
unfolding message_assembler assemble_from resume round scan after_scan take_packet packet copy
    deliver serial_rcv read_chunk write_at fcs_from
wrapped = refl

empty_port-IsValid : IsValid (empty_port 509)
empty_port-IsValid = record { whole = refl; head_in = omega arith; fits = omega arith }

build_and_send_cmd-frame_example :
    build_and_send_cmd (λ n. some (replicate n 0)) 0x4d 0x02 2 (some (0x40 ∷ 0x00 ∷ []))
    ≡ some (frame (2 ∷ 0x4d ∷ 0x02 ∷ 0x40 ∷ 0x00 ∷ []))
build_and_send_cmd-frame_example =
    build_and_send_cmd-frame (λ n. some (replicate n 0)) 0x4d 0x02 (0x40 ∷ 0x00 ∷ [])
      (replicate 7 0) refl (omega arith)

serial_rcv-contents_run :
    contents (serial_rcv (empty_port 509) ((1 ∷ 2 ∷ 3 ∷ []) ∷ (4 ∷ []) ∷ [] ∷ []))
    ≡ contents (empty_port 509) ++ received ((1 ∷ 2 ∷ 3 ∷ []) ∷ (4 ∷ []) ∷ [] ∷ [])
unfolding read_chunk write_at
serial_rcv-contents_run =
    serial_rcv-contents (empty_port 509) ((1 ∷ 2 ∷ 3 ∷ []) ∷ (4 ∷ []) ∷ [] ∷ []) empty_port-IsValid
      (
        record { in_line = omega arith; room = omega arith },
        (record { in_line = omega arith; room = omega arith }, tt),
      )

loopback_example :
    HandsOn
      (message_assembler
        (serial_rcv (empty_port 509) ((0xfe ∷ 0x00 ∷ 0x21 ∷ []) ∷ (0x01 ∷ 0x20 ∷ []) ∷ [] ∷ [])))
      (packet_of ping ∷ [])
      []
unfolding read_chunk write_at received build_and_send_cmd cmd_fcs_cal body payload fcs_from
loopback_example =
    loopback (λ n. some (replicate n 0)) ping (replicate 5 0)
      (0xfe ∷ 0x00 ∷ 0x21 ∷ 0x01 ∷ 0x20 ∷ []) (empty_port 509)
      ((0xfe ∷ 0x00 ∷ 0x21 ∷ []) ∷ (0x01 ∷ 0x20 ∷ []) ∷ [] ∷ []) refl (omega arith) refl
      empty_port-IsValid refl
      (
        record { in_line = omega arith; room = omega arith },
        (record { in_line = omega arith; room = omega arith }, tt),
      )
      refl

abbrev two_frames : Port
unfolding loaded fcs_from
two_frames = loaded (stream (ping ∷ read_cmd ∷ []) ++ (0xfe ∷ []))

two_frames-IsValid : IsValid two_frames
unfolding loaded two_frames write_at fcs_from
two_frames-IsValid = record { whole = refl; head_in = omega arith; fits = omega arith }

message_assembler-stream_example :
    HandsOn (message_assembler two_frames) (map packet_of (ping ∷ read_cmd ∷ [])) (0xfe ∷ [])
unfolding two_frames loaded write_at fcs_from contents read_ring
message_assembler-stream_example =
    message_assembler-stream two_frames (ping ∷ read_cmd ∷ []) (0xfe ∷ []) two_frames-IsValid
      (omega arith, (omega arith, tt)) refl (omega arith)

message_assembler-ends_example : (message_assembler two_frames).ending ≢ out_of_fuel
message_assembler-ends_example = message_assembler-ends two_frames

message_assembler-IsValid_example : IsValid (message_assembler two_frames).port
message_assembler-IsValid_example = message_assembler-IsValid two_frames two_frames-IsValid

full_port : Port
full_port = record { buf = replicate 512 0; head = 10; len = 512 }

read_chunk_overflow_run :
    (512 < (read_chunk full_port (7 ∷ 8 ∷ [])).len)
    × (get_or (read_chunk full_port (7 ∷ 8 ∷ [])).buf (read_chunk full_port (7 ∷ 8 ∷ [])).head 0
        ≡ 7)
unfolding full_port
read_chunk_overflow_run =
    read_chunk_overflow full_port 7 (8 ∷ [])
      (record { whole = refl; head_in = omega arith; fits = omega arith }) refl (omega arith)

-- The ping with its command byte 0x01 damaged to 0x03.
abbrev damaged : Port
unfolding loaded
damaged = loaded (0xfe ∷ 0x00 ∷ 0x21 ∷ 0x03 ∷ 0x20 ∷ [])

damaged-HandsOn_example : HandsOn (message_assembler damaged) [] []
unfolding damaged loaded write_at fcs_from contents read_ring
damaged-HandsOn_example =
    damaged-HandsOn damaged ping 1 0x03 []
      (record { whole = refl; head_in = omega arith; fits = omega arith }) (omega arith) refl
      (omega arith) (omega arith) (omega arith)

-- One byte of noise, the ping, and the command.
abbrev noisy : List ℕ → Port
unfolding loaded fcs_from
noisy rest = loaded (0x55 ∷ (stream (ping ∷ []) ++ rest))

noise-HandsOn_example : HandsOn (message_assembler (noisy (1 ∷ []))) (packet_of ping ∷ []) (1 ∷ [])
unfolding noisy loaded write_at fcs_from contents read_ring
noise-HandsOn_example =
    noise-HandsOn (noisy (1 ∷ [])) (0x55 ∷ []) (1 ∷ []) ping
      (record { whole = refl; head_in = omega arith; fits = omega arith }) (omega arith, tt)
      (omega arith) refl (omega arith)

stale_offset-HandsOn_run :
    HandsOn
      (message_assembler (noisy (frame (message read_cmd))))
      (packet_of ping ∷ [])
      (frame (message read_cmd))
unfolding noisy loaded write_at fcs_from contents read_ring
stale_offset-HandsOn_run =
    stale_offset-HandsOn (noisy (frame (message read_cmd))) (0x55 ∷ []) ping read_cmd
      (record { whole = refl; head_in = omega arith; fits = omega arith }) (omega arith, tt)
      (omega arith) (omega arith) (omega arith) refl

stale_offset_loss_run :
    HandsOn
      (message_assembler (noisy (frame (message read_cmd) ++ (1 ∷ 2 ∷ []))))
      (packet_of ping ∷ packet_of read_cmd ∷ [])
      (1 ∷ [])
unfolding noisy loaded write_at fcs_from contents read_ring
stale_offset_loss_run =
    stale_offset_loss (noisy (frame (message read_cmd) ++ (1 ∷ 2 ∷ []))) (0x55 ∷ []) (1 ∷ [])
      (2 ∷ []) ping read_cmd (record { whole = refl; head_in = omega arith; fits = omega arith })
      (omega arith, tt) (omega arith) (omega arith) refl refl (omega arith)

abbrev too_long : Port
unfolding loaded
too_long = loaded (0xfe ∷ 253 ∷ replicate 256 1)

long_frame_overruns_run : (message_assembler too_long).ending ≡ overran
unfolding too_long loaded write_at contents read_ring
long_frame_overruns_run =
    long_frame_overruns too_long (replicate 256 1) [] 253
      (record { whole = refl; head_in = omega arith; fits = omega arith }) refl refl (omega arith)
