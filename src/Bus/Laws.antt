-- ===== src/Bus/Laws.antt =====
-- What is added to an array of the bus is written once, in order.
use Prim.Native.String.{String}
use mathlib.Core.Option
use kappaio.Common.{
  ℕ, ◌+◌, ◌%◌, ◌^◌, ◌<◌, ◌≡◌, refl, ap, sym, ◌∙◌, subst, Bool, true, false, Option, none, some,
  List, [], ◌∷◌, ◌++◌, map, length, ◌==◌, if◌then◌else◌, Bool-cases, inl, inr, arith,
}
use kappaio.Common.Dicts.{Dict, lookup, insert, lookup-insert, lookup-map, str_eq}
use kappaio.Bus.{
  KbData, Slot, number, object, KbFile, Shown, shown_number, shown_items, get_elem?, change,
  free_slot, set_slot, kb_add_json, store_value, refresh_all, reset_kb_data, any_freed, refreshed,
  show_as, show_data, show_slot, dump, stamped, kb_commit,
}
use kappaio.Bus.Objects.{
  get_elem?-change, length-change, get_elem?-map, length-map, store_value-freed, any_freed-change,
  any_freed-map, reset_kb_data-freed, any_freed-refresh_all, get_elem?-refresh_all,
  length-refresh_all, live, IsArray, store_value-IsArray, from_refresher, refreshed-IsArray,
  reset_kb_data-IsArray,
}

abbrev is_number : Option Slot → Bool
is_number none = true
is_number (some (number n)) = true
is_number (some (object i)) = false

-- A file in which nothing is freed, with the array number `i` under `name`, which holds `xs`, and numbers or nothing
-- under the two keys that a commit writes.
pub record IsOpen {J : Type 0} (name : String) (i : ℕ) (auto : Bool) (f : KbFile J) (xs : List J)
    : Type 0 where
  pub slot : lookup name f.bus ≡ some (object i)
  pub seq : is_number (lookup "seqnum" f.bus) ≡ true
  pub time : is_number (lookup "unixtime" f.bus) ≡ true
  pub whole : any_freed f.objs ≡ false
  pub own : IsArray (get_elem? f.objs i) xs auto

-- The name is none of these keys.
abbrev pub IsName : String → Type 0
IsName name = (str_eq "seqnum" name ≡ false) × (str_eq "unixtime" name ≡ false)

module _ {J : Type 0} where
  free_slot-is_number :
      (o : Option Slot) (objs : List (KbData J)) → is_number o ≡ true → free_slot o objs ≡ objs
  unfolding free_slot
  free_slot-is_number none objs h = refl
  free_slot-is_number (some (number n)) objs h = refl
  free_slot-is_number (some (object i)) objs h = absurd (cc)

  lookup-dump :
      (name : String) (f : KbFile J)
      → lookup name (dump f) ≡ Option.map (show_slot f.objs) (lookup name f.bus)
  unfolding dump
  lookup-dump name f = lookup-map (show_slot f.objs) name f.bus

  show_data-IsArray :
      {o : Option (KbData J)} {xs : List J} {auto : Bool}
      → IsArray o xs auto
      → show_data o ≡ shown_items xs
  unfolding show_data show_as
  show_data-IsArray a =
      ap show_data a.there ∙ ap (λ k. show_as k a.at) a.is_array ∙ ap shown_items a.holds

  module _ (time : ℕ) (fresh : ℕ → List (String × J)) (f : KbFile J) where
    -- Without objects under the two keys nothing is freed.
    stamped-objs :
        is_number (lookup "seqnum" f.bus) ≡ true
        → is_number (lookup "unixtime" f.bus) ≡ true
        → (stamped time fresh f).objs ≡ refresh_all fresh 0 f.objs
    unfolding stamped set_slot
    stamped-objs h k =
        ap (λ o. free_slot o (free_slot (lookup "seqnum" f.bus) (refresh_all fresh 0 f.objs)))
          (lookup-insert "seqnum" "unixtime" (number f.seq_num) f.bus)
        ∙ free_slot-is_number (lookup "unixtime" f.bus)
            (free_slot (lookup "seqnum" f.bus) (refresh_all fresh 0 f.objs)) k
        ∙ free_slot-is_number (lookup "seqnum" f.bus) (refresh_all fresh 0 f.objs) h

    lookup-stamped :
        (key : String)
        → lookup key (stamped time fresh f).bus ≡ (
            if str_eq "unixtime" key
            then some (number time)
            else (if str_eq "seqnum" key then some (number f.seq_num) else lookup key f.bus))
    unfolding stamped set_slot
    lookup-stamped key =
        lookup-insert "unixtime" key (number time) (insert "seqnum" (number f.seq_num) f.bus)
        ∙ ap (λ o. if str_eq "unixtime" key then some (number time) else o)
            (lookup-insert "seqnum" key (number f.seq_num) f.bus)

module _ {J : Type 0} (name : String) (i : ℕ) (auto : Bool) where
  pub add-IsOpen :
      (f : KbFile J) (xs : List J) (j : ℕ) (key : String) (value : J)
      → IsOpen name i auto f xs
      → j < length f.objs
      → (f' : KbFile J) × (kb_add_json j key value f ≡ some f')
        × IsOpen name i auto f' (if j == i then xs ++ (value ∷ []) else xs)
        × (length f'.objs ≡ length f.objs)
        × (f'.seq_num ≡ f.seq_num)
  unfolding kb_add_json
  add-IsOpen f xs j key value o h = (
    record f { objs = change j (store_value key value) f.objs },
    rw (live f.objs j o.whole h) refl,
    record {
      slot = o.slot;
      seq = o.seq;
      time = o.time;
      whole =
          any_freed-change (store_value key value) (store_value-freed key value) j f.objs ∙ o.whole;
      own =
          subst (λ p. IsArray p (if j == i then xs ++ (value ∷ []) else xs) auto)
            (sym (get_elem?-change j i (store_value key value) f.objs))
            (elim (Bool-cases (j == i)) [
              | inl same ↦ rw same (store_value-IsArray key value o.own)
              | inr other ↦ rw other o.own
            ]);
    },
    length-change j (store_value key value) f.objs,
    refl,
  )

  pub commit-IsOpen :
      (f : KbFile J) (xs : List J) (time : ℕ) (fresh : ℕ → List (String × J))
      → IsName name
      → IsOpen name i auto f xs
      → (f' : KbFile J) × (d : Dict (Shown J)) × (kb_commit time fresh f ≡ some (f', d))
        × IsOpen name i auto f' []
        × (length f'.objs ≡ length f.objs)
        × (f'.seq_num ≡ (f.seq_num + 1) % 2 ^ 32)
        × (lookup name d ≡ some (shown_items (xs ++ from_refresher auto (fresh i))))
        × (lookup "seqnum" d ≡ some (shown_number f.seq_num))
  unfolding kb_commit show_slot stamped set_slot
  commit-IsOpen f xs time fresh n o =
      let g = stamped time fresh f in
      let same = stamped-objs time fresh f o.seq o.time in
      let slot : lookup name g.bus ≡ some (object i) =
        lookup-stamped time fresh f name ∙ rw (n.1, n.0) o.slot in
      let whole : any_freed g.objs ≡ false =
        ap any_freed same ∙ any_freed-refresh_all fresh 0 f.objs ∙ o.whole in
      let arr : IsArray (get_elem? g.objs i) (xs ++ from_refresher auto (fresh i)) auto =
        subst (λ p. IsArray p (xs ++ from_refresher auto (fresh i)) auto)
          (sym (
            ap (λ ds. get_elem? ds i) same
            ∙ get_elem?-refresh_all fresh 0 i f.objs
            ∙ ap (λ k. Option.map (refreshed (fresh k)) (get_elem? f.objs i)) (omega arith)))
          (refreshed-IsArray (fresh i) o.own) in
      (
        record g { objs = map reset_kb_data g.objs },
        dump g,
        rw whole refl,
        record {
          slot = slot;
          seq = ap is_number (lookup-stamped time fresh f "seqnum");
          time = ap is_number (lookup-stamped time fresh f "unixtime");
          whole = any_freed-map reset_kb_data reset_kb_data-freed g.objs ∙ whole;
          own =
              subst (λ p. IsArray p [] auto) (sym (get_elem?-map reset_kb_data g.objs i))
                (reset_kb_data-IsArray arr);
        },
        length-map reset_kb_data g.objs ∙ ap length same ∙ length-refresh_all fresh 0 f.objs,
        refl,
        lookup-dump name g
            ∙ ap (Option.map (show_slot g.objs)) slot
            ∙ ap some (show_data-IsArray arr),
        lookup-dump "seqnum" g
            ∙ ap (Option.map (show_slot g.objs)) (lookup-stamped time fresh f "seqnum"),
      )
