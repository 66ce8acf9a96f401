-- ===== src/Dev/Tests.antt =====
-- Texts and a message, between turns of the thread. A JSON value is the codes in it.
use kappaio.Common.{ℕ, List, [], ◌∷◌, ◌++◌, none}
use kappaio.Common.Dicts.{Dict}
use kappaio.Bus.{kb_open}
use kappaio.Dev.{AfMessage, Kdev, Call, trace, bin_trace, aps_message, pass}

abbrev json_integer : ℕ → List ℕ
json_integer n = n ∷ []

abbrev json_string : List ℕ → List ℕ
json_string s = s

abbrev json_object : Dict (List ℕ) → List ℕ
json_object [] = []
json_object ((k, v) ∷ d) = v ++ json_object d

abbrev report : AfMessage
report = record {
  src_addr = 0x1a2b;
  group_id = 0;
  cluster_id = 6;
  src_endpoint = 1;
  dst_endpoint = 2;
  tran_seq_num = 7;
  was_broad_cast = 0;
  link_quality = 0xff;
  security_use = 0;
  asdu = 0x18 ∷ 0xab ∷ [];
}

abbrev calls : List Call
calls =
    trace (0x68 ∷ 0x69 ∷ [])
    ∷ aps_message 100 report
    ∷ pass 101
    ∷ bin_trace (0xfe ∷ 0 ∷ [])
    ∷ pass 103
    ∷ aps_message 104 report
    ∷ []

abbrev unopened : Kdev (List ℕ)
unopened = record { kd_file = kb_open; messager_logger = none; afmsg_logger = none; syslog = [] }
