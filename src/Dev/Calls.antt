-- ===== src/Dev/Calls.antt =====
-- The log as operations on its file.
use mathlib.Core.Option
use kappaio.Common.{
  ℕ, ◌*◌, ◌<◌, ◌≡◌, refl, ap, sym, ◌∙◌, false, true, Option, none, some, ◌>>=◌, List, [], ◌∷◌, ◌++◌,
  map, length, append_assoc, append-nil, ltb, arith,
}
use kappaio.Common.Words.{All}
use kappaio.Common.Dicts.{Dict}
use kappaio.Util.Hex.{k_print_mem}
use kappaio.Util.Hex.Laws.{length-k_print_mem}
use kappaio.Bus.{KbFile, Shown, kb_add_str, kb_add_json, kb_commit}
use kappaio.Bus.Run.{Op, add, commit, run, IsBelow, added}
use kappaio.Dev.{
  Kdev, data_text, schedule_turn, log_system_message, kd_trace_log, kd_bin_trace_log, message_json,
  log_json, kd_aps_message_log, Call, trace, bin_trace, aps_message, pass, run_calls,
}

length-data_text : (bs : List ℕ) → length (data_text bs) ≡ length bs * 2
unfolding data_text
length-data_text [] = refl
length-data_text (b ∷ bs) = omega (arith, length-data_text bs)

-- What fits into the arrays of the functions.
abbrev pub IsShort : Call → Type 0
IsShort (trace text) = length text < 4096
IsShort (bin_trace mem) = length mem < 256
IsShort (aps_message time msg) = length msg.asdu < 256
IsShort (pass time) = Unit

-- The loggers are the first two objects.
pub record IsReady {J : Type 0} (k : Kdev J) : Type 0 where
  pub messager : k.messager_logger ≡ some 0
  pub afmsg : k.afmsg_logger ≡ some 1

-- The texts of the calls.
abbrev pub texts : List Call → List (List ℕ)
texts [] = []
texts (trace text ∷ calls) = text ∷ texts calls
texts (bin_trace mem ∷ calls) = k_print_mem mem ∷ texts calls
texts (aps_message time msg ∷ calls) = texts calls
texts (pass time ∷ calls) = texts calls

module _ {J : Type 0} (json_integer : ℕ → J) (json_string : List ℕ → J)
    (json_object : Dict J → J) where
  -- The JSON objects of their messages.
  abbrev pub messages : List Call → List J
  messages [] = []
  messages (trace text ∷ calls) = messages calls
  messages (bin_trace mem ∷ calls) = messages calls
  messages (aps_message time msg ∷ calls) =
      message_json json_integer json_string json_object time msg ∷ messages calls
  messages (pass time ∷ calls) = messages calls

  -- What they do to the file.
  abbrev pub ops_of : List Call → List (Op J)
  ops_of [] = []
  ops_of (trace text ∷ calls) = add 0 "" (json_string text) ∷ ops_of calls
  ops_of (bin_trace mem ∷ calls) = add 0 "" (json_string (k_print_mem mem)) ∷ ops_of calls
  ops_of (aps_message time msg ∷ calls) =
      add 1 "" (message_json json_integer json_string json_object time msg) ∷ ops_of calls
  ops_of (pass time ∷ calls) = commit time (λ i. []) ∷ ops_of calls

  pub ops_of-IsBelow : (calls : List Call) → All (IsBelow 2) (ops_of calls)
  ops_of-IsBelow [] = tt
  ops_of-IsBelow (trace text ∷ calls) = (omega arith, ops_of-IsBelow calls)
  ops_of-IsBelow (bin_trace mem ∷ calls) = (omega arith, ops_of-IsBelow calls)
  ops_of-IsBelow (aps_message time msg ∷ calls) = (omega arith, ops_of-IsBelow calls)
  ops_of-IsBelow (pass time ∷ calls) = (tt, ops_of-IsBelow calls)

  pub added-texts :
      (calls : List Call) → added 0 false (ops_of calls) ≡ map json_string (texts calls)
  added-texts [] = refl
  added-texts (trace text ∷ calls) = ap (λ xs. json_string text ∷ xs) (added-texts calls)
  added-texts (bin_trace mem ∷ calls) =
      ap (λ xs. json_string (k_print_mem mem) ∷ xs) (added-texts calls)
  added-texts (aps_message time msg ∷ calls) = added-texts calls
  added-texts (pass time ∷ calls) = added-texts calls

  pub added-messages : (calls : List Call) → added 1 false (ops_of calls) ≡ messages calls
  added-messages [] = refl
  added-messages (trace text ∷ calls) = added-messages calls
  added-messages (bin_trace mem ∷ calls) = added-messages calls
  added-messages (aps_message time msg ∷ calls) =
      ap (λ xs. message_json json_integer json_string json_object time msg ∷ xs)
        (added-messages calls)
  added-messages (pass time ∷ calls) = added-messages calls

  -- The file and the system's log after calls that led to this file.
  abbrev pub after :
      Kdev J → List (List ℕ) → KbFile J × List (Dict (Shown J)) → Kdev J × List (Dict (Shown J))
  after k lines p = (record k { kd_file = p.0; syslog = k.syslog ++ lines }, p.1)

  abbrev pub Follows : List Call → Type 0
  Follows calls =
      (k : Kdev J)
      → IsReady k
      → run_calls json_integer json_string json_object calls k
        ≡ Option.map (after k (texts calls)) (run (ops_of calls) k.kd_file)

  -- A call that changes the file, or fails as this does, and the system's log.
  step-Follows :
      (calls : List Call) (k : Kdev J) (lines s : List (List ℕ)) (o : Option (KbFile J))
      → IsReady k
      → s ++ texts calls ≡ k.syslog ++ lines
      → Follows calls
      → (o
          >>= (λ f. some (record k { kd_file = f; syslog = s }))
          >>= run_calls json_integer json_string json_object calls)
        ≡ Option.map (after k lines) (o >>= run (ops_of calls))
  step-Follows calls k lines s none r e rec = refl
  step-Follows calls k lines s (some f) r e rec =
      rec (record k { kd_file = f; syslog = s }) (record { messager = r.messager; afmsg = r.afmsg })
      ∙ ap
          (λ l.
            Option.map
              (λ (p : KbFile J × List (Dict (Shown J))).
                (record k { kd_file = p.0; syslog = l }, p.1))
              (run (ops_of calls) f))
          e

  trace-Follows :
      (text : List ℕ) (calls : List Call) (k : Kdev J)
      → IsReady k
      → length text < 4096
      → Follows calls
      → (kd_trace_log json_integer json_string json_object text k
          >>= run_calls json_integer json_string json_object calls)
        ≡ Option.map
            (after k (text ∷ texts calls))
            (kb_add_json 0 "" (json_string text) k.kd_file >>= run (ops_of calls))
  unfolding kd_trace_log log_system_message kb_add_str
  trace-Follows text calls k r h rec = rw (lt→ltb h) (
      ap
        (λ m.
          log_system_message json_integer json_string json_object m text k
          >>= run_calls json_integer json_string json_object calls)
        r.messager
      ∙ step-Follows calls k (text ∷ texts calls) (k.syslog ++ (text ∷ []))
          (kb_add_json 0 "" (json_string text) k.kd_file) r
          (append_assoc k.syslog (text ∷ []) (texts calls)) rec)
    where
      lt→ltb : {a b : ℕ} → a < b → ltb a b ≡ true
      lt→ltb h = ground arith

  abbrev turned : Kdev J → KbFile J × Dict (Shown J) → Option (Kdev J × Dict (Shown J))
  turned k p = some (record k { kd_file = p.0 }, p.1)

  abbrev with_dump :
      {A : Type 0} → Dict (Shown J) → A × List (Dict (Shown J)) → Option (A × List (Dict (Shown J)))
  with_dump d q = some (q.0, d ∷ q.1)

  pass-Follows :
      (calls : List Call) (k : Kdev J) (o : Option (KbFile J × Dict (Shown J)))
      → IsReady k
      → Follows calls
      → (o
          >>= turned k
          >>= (λ p. run_calls json_integer json_string json_object calls p.0 >>= with_dump p.1))
        ≡ Option.map (after k (texts calls)) (o >>= (λ p. run (ops_of calls) p.0 >>= with_dump p.1))
  pass-Follows calls k none r rec = refl
  pass-Follows calls k (some p) r rec =
      ap (λ o. o >>= with_dump p.1)
        (rec (record k { kd_file = p.0 }) (record { messager = r.messager; afmsg = r.afmsg }))
      ∙ by_result (run (ops_of calls) p.0)
    where
      by_result :
          (o : Option (KbFile J × List (Dict (Shown J))))
          → (Option.map (after k (texts calls)) o >>= with_dump p.1)
            ≡ Option.map (after k (texts calls)) (o >>= with_dump p.1)
      by_result none = refl
      by_result (some q) = refl

  pub run_calls-Follows : (calls : List Call) → All IsShort calls → Follows calls
  unfolding run_calls run schedule_turn kd_bin_trace_log kd_aps_message_log log_json
  run_calls-Follows [] h k r =
      ap (λ s. some (record k { syslog = s }, [])) (sym (append-nil k.syslog))
  run_calls-Follows (trace text ∷ calls) h k r =
      trace-Follows text calls k r h.0 (run_calls-Follows calls h.1)
  run_calls-Follows (bin_trace mem ∷ calls) h k r = rw (short) (
      trace-Follows (k_print_mem mem) calls k r (omega (arith, length-k_print_mem mem, h.0))
        (run_calls-Follows calls h.1))
    where
      short : ltb (length (k_print_mem mem)) 512 ≡ true
      short = ground (arith, length-k_print_mem mem, h.0)
  run_calls-Follows (aps_message time msg ∷ calls) h k r = rw short (
      ap
        (λ m.
          log_json json_integer json_string json_object m
            (message_json json_integer json_string json_object time msg) k
          >>= run_calls json_integer json_string json_object calls)
        r.afmsg
      ∙ step-Follows calls k (texts calls) k.syslog
          (kb_add_json 1 "" (message_json json_integer json_string json_object time msg) k.kd_file)
          r refl (run_calls-Follows calls h.1))
    where
      short : ltb (length (data_text msg.asdu)) 512 ≡ true
      short = ground (arith, length-data_text msg.asdu, h.0)
  run_calls-Follows (pass time ∷ calls) h k r =
      pass-Follows calls k (kb_commit time (λ i. []) k.kd_file) r (run_calls-Follows calls h.1)
