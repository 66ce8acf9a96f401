-- ===== src/Dev.antt =====
-- The gateway's log, src/kdev/source/kdev.cpp: texts and messages that go to a file of the bus and to the system's log.
-- JSON values and how they are made are parameters. Texts are lists of codes; a text that does not fit into its array
-- on the stack, and a NULL handle that is followed, is the result `none`. The name NULL of a value is the empty one,
-- since an array does not read it. The texts are UTF-8, as `json_string` wants them.
pub mod Calls
pub mod Logged
mod Tests
use Prim.Native.String.{String}
use kappaio.Common.{
  ℕ, ◌+◌, ◌*◌, ◌/◌, ◌%◌, Option, none, some, ◌>>=◌, List, [], ◌∷◌, ◌++◌, length, ltb, leb,
  if◌then◌else◌,
}
use kappaio.Common.Dicts.{Dict}
use kappaio.Util.Hex.{byte_text, k_print_mem}
use kappaio.Bus.{KbFile, Shown, kb_open, kb_add_obj, kb_add_str, kb_add_json, kb_commit}

-- An `AFMessage` as its getters show it; `asdu` up to `asduLen`.
pub record AfMessage : Type 0 where
  pub src_addr : ℕ
  pub group_id : ℕ
  pub cluster_id : ℕ
  pub src_endpoint : ℕ
  pub dst_endpoint : ℕ
  pub tran_seq_num : ℕ
  pub was_broad_cast : ℕ
  pub link_quality : ℕ
  pub security_use : ℕ
  pub asdu : List ℕ

-- The variables of the namespace, and what the system's log got. The file is empty until it is opened.
pub record Kdev (J : Type 0) : Type 0 where
  pub kd_file : KbFile J
  pub messager_logger : Option ℕ
  pub afmsg_logger : Option ℕ
  pub syslog : List (List ℕ)

-- What `sprintf` writes for "%04x" of 16 bits, and for "%02X" of each byte.
unfoldable pub word_text : ℕ → List ℕ
word_text v = byte_text (v / 256) ++ byte_text v

unfoldable pub upper_digit : ℕ → ℕ
upper_digit n = if ltb n 10 then 0x30 + n else n + 55

unfoldable pub data_text : List ℕ → List ℕ
unfolding upper_digit
data_text [] = []
data_text (b ∷ bs) = upper_digit (b / 16 % 16) ∷ upper_digit (b % 16) ∷ data_text bs

module _ {J : Type 0} where
  -- `kdInit`, without the thread of `kbRun`, whose turns are `schedule_turn`.
  unfoldable pub kd_init : Kdev J → Kdev J
  kd_init k =
      let (f, messager) = kb_add_obj "system_message" 2 kb_open in
      let (g, afmsg) = kb_add_obj "af_message" 2 f in
      record k { kd_file = g; messager_logger = messager; afmsg_logger = afmsg }

  -- The loop of `kbSchdule` for this file, which has no refreshers.
  unfoldable pub schedule_turn : ℕ → Kdev J → Option (Kdev J × Dict (Shown J))
  schedule_turn time k = do
    p ← kb_commit time (λ i. []) k.kd_file
    some (record k { kd_file = p.0 }, p.1)

module _ {J : Type 0} (json_integer : ℕ → J) (json_string : List ℕ → J)
    (json_object : Dict J → J) where
  -- `logSystemMessage` for a logger that is there, and `syslog`.
  unfoldable pub log_system_message : Option ℕ → List ℕ → Kdev J → Option (Kdev J)
  log_system_message none text k = some (record k { syslog = k.syslog ++ (text ∷ []) })
  log_system_message (some i) text k = do
    f ← kb_add_str json_string i "" text k.kd_file
    some (record k { kd_file = f; syslog = k.syslog ++ (text ∷ []) })

  -- `kdTraceLog`, with the text that `vsprintf` makes, which goes into 4096 bytes with a final 0.
  unfoldable pub kd_trace_log : List ℕ → Kdev J → Option (Kdev J)
  unfolding log_system_message
  kd_trace_log text k =
      if ltb (length text) 4096 then log_system_message k.messager_logger text k else none

  -- `kdBinTraceLog`
  unfoldable pub kd_bin_trace_log : List ℕ → Kdev J → Option (Kdev J)
  kd_bin_trace_log mem k =
      if ltb (length (k_print_mem mem)) 512 then kd_trace_log (k_print_mem mem) k else none

  -- The JSON object of a message.
  unfoldable pub message_json : ℕ → AfMessage → J
  message_json time msg = json_object (
      ("UNIXTimeStamp", json_integer time)
      ∷ ("SrcAddr", json_string (word_text msg.src_addr))
      ∷ ("GroupId", json_string (word_text msg.group_id))
      ∷ ("ClusterId", json_string (word_text msg.cluster_id))
      ∷ ("SrcEndpoint", json_string (byte_text msg.src_endpoint))
      ∷ ("DstEndpoint", json_string (byte_text msg.dst_endpoint))
      ∷ ("TranSeqNumber", json_string (byte_text msg.tran_seq_num))
      ∷ ("WasBroadCast", json_string (byte_text msg.was_broad_cast))
      ∷ ("LinkQuality", json_string (byte_text msg.link_quality))
      ∷ ("SecurityUse", json_string (byte_text msg.security_use))
      ∷ ("Data", json_string (data_text msg.asdu))
      ∷ [])

  unfoldable pub log_json : Option ℕ → J → Kdev J → Option (Kdev J)
  log_json none value k = none
  log_json (some i) value k = do
    f ← kb_add_json i "" value k.kd_file
    some (record k { kd_file = f })

  -- `kdAPSMessageLog`, which writes the data's text and a final 0 into 512 bytes.
  unfoldable pub kd_aps_message_log : ℕ → AfMessage → Kdev J → Option (Kdev J)
  unfolding log_json
  kd_aps_message_log time msg k =
      if ltb (length (data_text msg.asdu)) 512
      then log_json k.afmsg_logger (message_json time msg) k
      else none

-- Calls of the log, and turns of the thread.
pub data Call : Type 0 where
  trace : List ℕ → Call
  bin_trace : List ℕ → Call
  aps_message : ℕ → AfMessage → Call
  pass : ℕ → Call

module _ {J : Type 0} (json_integer : ℕ → J) (json_string : List ℕ → J)
    (json_object : Dict J → J) where
  unfoldable pub run_calls : List Call → Kdev J → Option (Kdev J × List (Dict (Shown J)))
  run_calls [] k = some (k, [])
  run_calls (trace text ∷ calls) k = do
    k' ← kd_trace_log json_integer json_string json_object text k
    run_calls calls k'
  run_calls (bin_trace mem ∷ calls) k = do
    k' ← kd_bin_trace_log json_integer json_string json_object mem k
    run_calls calls k'
  run_calls (aps_message time msg ∷ calls) k = do
    k' ← kd_aps_message_log json_integer json_string json_object time msg k
    run_calls calls k'
  run_calls (pass time ∷ calls) k = do
    p ← schedule_turn time k
    q ← run_calls calls p.0
    some (q.0, p.1 ∷ q.1)
