-- ===== src/Hal/Request.antt =====
-- `__MTSEND__` of src/hal/source/mt_helper.cpp: a request to the ZigBee processor, and the data of its
-- answer. The processor is a parameter: what it becomes, and the packets that arrive from it until the
-- request times out, are a function of the message. A packet is the memory from its length byte on.
use kappaio.Common.{
  ℕ, ◌+◌, ◌<◌, ◌≡◌, refl, ap, ◌∙◌, Bool, true, false, List, [], Option, none, some, if◌then◌else◌,
}
use kappaio.Serial.Dispatch.{subsystem_of}
use kappaio.Serial.Channel.{Channels, Sent, sent, blocked, outside, is_failed, mt_send}
use kappaio.Serial.Channel.Laws.{first_answer, is_none, status_of, mt_send-answered}
use kappaio.Aps.Message.{copy_out}

-- What is sent of an `mtMessage_t`: the first `dataLength` bytes of its `pData`.
pub record Message : Type 0 where
  pub cmd_type : ℕ
  pub cmd_id : ℕ
  pub sent_data : List ℕ

abbrev pub React : Type 0 → Type 0
React Chip = Chip → Message → Chip × List (List ℕ)

-- The processor, the request channels, and how often the port was opened anew.
pub record Link (Chip : Type 0) : Type 0 where
  pub chip : Chip
  pub channels : Channels
  pub resets : ℕ

-- -1; 0 with the bytes in the buffer; or no return that the code defines, because the channel is taken or not there.
pub data Outcome : Type 0 where
  no_answer : Outcome
  answered : List ℕ → Outcome
  waiting : Outcome

-- `memcpy (returnBuffer, &rsp.pData, bufferSize)`; the data begins behind the length and the command.
unfoldable pub data_of : ℕ → Option (List ℕ) → List ℕ
data_of size none = copy_out [] 3 size
data_of size (some pkt) = copy_out pkt 3 size

unfoldable pub outcome_of : ℕ → ℕ → Sent → Outcome
unfolding is_failed
outcome_of size s (sent st chs reset) =
    if is_failed st then no_answer else answered (data_of size (chs s).stored)
outcome_of size s blocked = waiting
outcome_of size s outside = waiting

module _ {Chip : Type 0} where
  unfoldable pub link_after : Link Chip → Chip → Sent → Link Chip
  link_after l chip (sent st chs reset) = record {
    chip = chip;
    channels = chs;
    resets = if reset then l.resets + 1 else l.resets;
  }
  link_after l chip blocked = l
  link_after l chip outside = l

  -- With a buffer of `size` bytes and no callback.
  unfoldable pub mt_request : React Chip → ℕ → Link Chip → Message → Link Chip × Outcome
  mt_request react size l m =
      let r = mt_send l.channels m.cmd_type m.cmd_id true false (react l.chip m).1 in
      (link_after l (react l.chip m).0 r, outcome_of size (subsystem_of m.cmd_type) r)

  -- With neither buffer nor callback.
  unfoldable pub mt_post : React Chip → Link Chip → Message → Link Chip
  mt_post react l m =
      link_after l (react l.chip m).0
        (mt_send l.channels m.cmd_type m.cmd_id false false (react l.chip m).1)

  -- The packet that a request takes, if one comes in time.
  unfoldable pub reply_to : React Chip → Chip → Message → Option (List ℕ)
  reply_to react c m = first_answer (subsystem_of m.cmd_type) m.cmd_id (react c m).1

  -- The subsystem has a channel, and it is free.
  abbrev pub IsFree : Link Chip → ℕ → Type 0
  IsFree l cmd_type =
      (subsystem_of cmd_type < 15) × ((l.channels (subsystem_of cmd_type)).busy ≡ false)

abbrev pub outcome_for : ℕ → Option (List ℕ) → Outcome
outcome_for size none = no_answer
outcome_for size (some pkt) = answered (copy_out pkt 3 size)

outcome_for_lem :
    (size s : ℕ) (chs : Channels) (reset : Bool) (r : Option (List ℕ))
    → (chs s).stored ≡ r
    → outcome_of size s (sent (status_of r) chs reset) ≡ outcome_for size r
unfolding outcome_of data_of
outcome_for_lem size s chs reset none e = refl
outcome_for_lem size s chs reset (some pkt) e = ap (λ r. answered (data_of size r)) e

-- A request on a free channel: its outcome is that of the reply, and the channel is free again.
module _ {Chip : Type 0} (react : React Chip) (size : ℕ) (l : Link Chip) (m : Message) where
  pub mt_request-outcome :
      IsFree l m.cmd_type
      → (mt_request react size l m).1 ≡ outcome_for size (reply_to react l.chip m)
  unfolding mt_request reply_to
  mt_request-outcome free =
      let r =
        mt_send-answered l.channels m.cmd_type m.cmd_id true false (react l.chip m).1 refl free.0
          free.1 in
      ap (outcome_of size (subsystem_of m.cmd_type)) r.1
      ∙ outcome_for_lem size (subsystem_of m.cmd_type) r.0
          (is_none (first_answer (subsystem_of m.cmd_type) m.cmd_id (react l.chip m).1))
          (first_answer (subsystem_of m.cmd_type) m.cmd_id (react l.chip m).1) r.4

  pub mt_request-chip :
      IsFree l m.cmd_type → (mt_request react size l m).0.chip ≡ (react l.chip m).0
  unfolding mt_request link_after
  mt_request-chip free =
      let r =
        mt_send-answered l.channels m.cmd_type m.cmd_id true false (react l.chip m).1 refl free.0
          free.1 in
      ap (λ s. (link_after l (react l.chip m).0 s).chip) r.1

  pub mt_request-IsFree : IsFree l m.cmd_type → IsFree (mt_request react size l m).0 m.cmd_type
  unfolding mt_request link_after
  mt_request-IsFree free =
      let r =
        mt_send-answered l.channels m.cmd_type m.cmd_id true false (react l.chip m).1 refl free.0
          free.1 in
      (
        free.0,
        ap (λ s. ((link_after l (react l.chip m).0 s).channels (subsystem_of m.cmd_type)).busy) r.1
            ∙ r.2,
      )
