-- ===== src/Aps/Af/Laws.antt =====
-- Each of the two data services gets its own messages.
use kappaio.Common.{
  ℕ, ◌≡◌, refl, ap, ◌∙◌, true, false, List, [], ◌∷◌, Option, none, some, get_or, ◌==◌,
  if◌then◌else◌, Bool-cases, inl, inr, arith,
}
use kappaio.Aps.Message.Incoming.{load_str}
use kappaio.Aps.DataService.{Buffer, Delivery, aps_message_indicate, indicate_all}
use kappaio.Aps.Af.{
  Services, Effect, delivered, delivered_ext, released, unknown, aps_message_indicate_ext,
  mtaf_incoming_msg_proc, mtaf_incoming_msg_ext_proc, mt_af_command_processing, process_packets,
}

-- The messages of the packets with this command.
abbrev pub loaded : ℕ → List ℕ → List (List ℕ) → List (List ℕ)
loaded cmd memory [] = []
loaded cmd memory (pkt ∷ pkts) =
    if get_or pkt 2 0 == cmd
    then load_str memory pkt ∷ loaded cmd memory pkts
    else loaded cmd memory pkts

abbrev pub deliveries : List Effect → List Delivery
deliveries [] = []
deliveries (delivered d ∷ es) = d ∷ deliveries es
deliveries (delivered_ext d ∷ es) = deliveries es
deliveries (released ∷ es) = deliveries es
deliveries (unknown ∷ es) = deliveries es

abbrev pub deliveries_ext : List Effect → List Delivery
deliveries_ext [] = []
deliveries_ext (delivered d ∷ es) = deliveries_ext es
deliveries_ext (delivered_ext d ∷ es) = d ∷ deliveries_ext es
deliveries_ext (released ∷ es) = deliveries_ext es
deliveries_ext (unknown ∷ es) = deliveries_ext es

not_both : (n : ℕ) → (n == 0x81) ≡ true → (n == 0x82) ≡ false
not_both n h = ground arith

quiet :
    (e : Effect) (es : List Effect) → deliveries (e ∷ []) ≡ [] → deliveries es ≡ deliveries (e ∷ es)
quiet (delivered d) es h = absurd (cc)
quiet (delivered_ext d) es h = refl
quiet released es h = refl
quiet unknown es h = refl

quiet_ext :
    (e : Effect) (es : List Effect)
    → deliveries_ext (e ∷ []) ≡ []
    → deliveries_ext es ≡ deliveries_ext (e ∷ es)
quiet_ext (delivered d) es h = refl
quiet_ext (delivered_ext d) es h = absurd (cc)
quiet_ext released es h = refl
quiet_ext unknown es h = refl

module _ (message_handler : List ℕ → Option ℕ) (memory memory_ext : List ℕ) where
  -- What packets did: the services after them, and the deliveries, are those of their own messages.
  pub record Split (pkts : List (List ℕ)) (s s' : Services) (es : List Effect) : Type 0 where
    pub ordinary :
        indicate_all message_handler s.buffer (loaded 0x81 memory pkts) ≡ (s'.buffer, deliveries es)
    pub extended :
        indicate_all (λ m. none) s.buffer_ext (loaded 0x82 memory_ext pkts)
        ≡ (s'.buffer_ext, deliveries_ext es)

  abbrev shown : List ℕ → Services → Buffer (List ℕ) × Delivery
  shown pkt s = aps_message_indicate message_handler s.buffer (load_str memory pkt)

  abbrev shown_ext : List ℕ → Services → Buffer (List ℕ) × Delivery
  shown_ext pkt s = aps_message_indicate (λ m. none) s.buffer_ext (load_str memory_ext pkt)

  process-ordinary :
      (pkt : List ℕ) (s : Services)
      → (get_or pkt 2 0 == 0x81) ≡ true
      → s.handle ≡ true
      → mt_af_command_processing message_handler memory memory_ext pkt s
        ≡ some (record s { buffer = (shown pkt s).0 }, delivered (shown pkt s).1)
  unfolding mt_af_command_processing mtaf_incoming_msg_proc
  process-ordinary pkt s is h = rw is (
      ap
        (λ b.
          if b
          then some (record s { buffer = (shown pkt s).0 }, delivered (shown pkt s).1)
          else none)
        h)

  process-extended :
      (pkt : List ℕ) (s : Services)
      → (get_or pkt 2 0 == 0x81) ≡ false
      → (get_or pkt 2 0 == 0x82) ≡ true
      → s.handle_ext ≡ true
      → mt_af_command_processing message_handler memory memory_ext pkt s
        ≡ some (record s { buffer_ext = (shown_ext pkt s).0 }, delivered_ext (shown_ext pkt s).1)
  unfolding mt_af_command_processing mtaf_incoming_msg_ext_proc aps_message_indicate_ext
  process-extended pkt s other is h =
      rw (other, is)
        (ap
          (λ b.
            if b
            then some
                (record s { buffer_ext = (shown_ext pkt s).0 }, delivered_ext (shown_ext pkt s).1)
            else none)
          h)

  process-other :
      (pkt : List ℕ) (s : Services)
      → (get_or pkt 2 0 == 0x81) ≡ false
      → (get_or pkt 2 0 == 0x82) ≡ false
      → (e : Effect) × (mt_af_command_processing message_handler memory memory_ext pkt s
          ≡ some (s, e))
        × (deliveries (e ∷ []) ≡ [])
        × (deliveries_ext (e ∷ []) ≡ [])
  unfolding mt_af_command_processing
  process-other pkt s a b = elim (Bool-cases (get_or pkt 2 0 == 0x01)) [
    | inl is ↦ (released, rw (a, b, is) refl, refl, refl)
    | inr other ↦ (unknown, rw (a, b, other) refl, refl, refl)
  ]

  -- With both handlers registered, packets of any commands, in any order: every packet is processed, no handler that is
  -- missing is called, and each of the two services has the receivers and makes the deliveries that its own
  -- messages alone, in their order, lead to; an extended message never reaches an endpoint.
  pub process_packets-Split :
      (pkts : List (List ℕ)) (s : Services)
      → s.handle ≡ true
      → s.handle_ext ≡ true
      → (s' : Services) × (es : List Effect) × (process_packets message_handler memory memory_ext
            pkts s
          ≡ some (s', es))
        × Split pkts s s' es
  unfolding process_packets indicate_all
  process_packets-Split [] s h k = (s, [], refl, record { ordinary = refl; extended = refl })
  process_packets-Split (pkt ∷ pkts) s h k = elim (Bool-cases (get_or pkt 2 0 == 0x81)) [
    | inl is ↦
        let (s', es, ran, split) =
          process_packets-Split pkts (record s { buffer = (shown pkt s).0 }) h k in
        (
          s',
          delivered (shown pkt s).1 ∷ es,
          rw (process-ordinary pkt s is h, ran) refl,
          record {
            ordinary = rw is (ap (λ p. (p.0, (shown pkt s).1 ∷ p.1)) split.ordinary);
            extended = rw (not_both (get_or pkt 2 0) is) split.extended;
          },
        )
    | inr other ↦ elim (Bool-cases (get_or pkt 2 0 == 0x82)) [
      | inl is ↦
          let (s', es, ran, split) =
            process_packets-Split pkts (record s { buffer_ext = (shown_ext pkt s).0 }) h k in
          (
            s',
            delivered_ext (shown_ext pkt s).1 ∷ es,
            rw (process-extended pkt s other is k, ran) refl,
            record {
              ordinary = rw other split.ordinary;
              extended = rw is (ap (λ p. (p.0, (shown_ext pkt s).1 ∷ p.1)) split.extended);
            },
          )
      | inr neither ↦
          let (s', es, ran, split) = process_packets-Split pkts s h k in
          let (e, did, none_here, none_ext) = process-other pkt s other neither in
          (
            s',
            e ∷ es,
            rw (did, ran) refl,
            record {
              ordinary =
                  rw other (split.ordinary ∙ ap (λ ds. (s'.buffer, ds)) (quiet e es none_here));
              extended =
                  rw neither
                    (split.extended ∙ ap (λ ds. (s'.buffer_ext, ds)) (quiet_ext e es none_ext));
            },
          )
    ]
  ]
