-- ===== src/Bus.antt =====
-- The message bus of src/kapi/source/kbus.cpp: a file with a JSON object that is written anew, with what was added
-- since the last time, again and again. JSON values are a parameter. A call is one step; `kbCommit` is one too, though
-- it takes the semaphore only behind the refreshers, each of which adds to its own object. Allocation succeeds. Data
-- that was freed stays in the list of objects, marked; its use is the result `none`.
pub mod Close
pub mod Objects
pub mod Laws
pub mod Run
pub mod Written
mod Tests
use Prim.Native.String.{String}
use kappaio.Common.{
  ℕ, zero, suc, ◌+◌, ◌%◌, ◌^◌, Bool, true, false, ◌||◌, Option, none, some, List, [], ◌∷◌, ◌++◌,
  map, length, ◌==◌, if◌then◌else◌,
}
use kappaio.Common.Dicts.{Dict, lookup, insert}

-- KBSTRUC and KBARRAY.
pub data Kind : Type 0 where
  struc : Kind
  array : Kind

-- `kbData_s`, with the contents of its JSON object or array.
pub record KbData (J : Type 0) : Type 0 where
  pub kind : Kind
  pub fields : Dict J
  pub items : List J
  pub auto_refresh : Bool
  pub freed : Bool

-- What a key of the file's object holds: a number, or the data with this place in the list of objects.
pub data Slot : Type 0 where
  number : ℕ → Slot
  object : ℕ → Slot

-- `kbFile_s`
pub record KbFile (J : Type 0) : Type 0 where
  pub seq_num : ℕ
  pub refresh_intval : ℕ × ℕ
  pub bus : Dict Slot
  pub objs : List (KbData J)

-- What is written for a slot.
pub data Shown (J : Type 0) : Type 0 where
  shown_number : ℕ → Shown J
  shown_fields : Dict J → Shown J
  shown_items : List J → Shown J

module _ {A : Type 0} where
  abbrev pub get_elem? : List A → ℕ → Option A
  get_elem? [] i = none
  get_elem? (x ∷ xs) zero = some x
  get_elem? (x ∷ xs) (suc i) = get_elem? xs i

  unfoldable pub change : ℕ → (A → A) → List A → List A
  change i f [] = []
  change zero f (x ∷ xs) = f x ∷ xs
  change (suc i) f (x ∷ xs) = x ∷ change i f xs

unfoldable pub kind_of : ℕ → Option Kind
kind_of type = if type == 1 then some struc else (if type == 2 then some array else none)

module _ {J : Type 0} where
  -- `kbOpen`
  unfoldable pub kb_open : KbFile J
  kb_open = record { seq_num = 0; refresh_intval = (2, 0); bus = []; objs = [] }

  -- `createKbData`, with the empty object or array.
  unfoldable pub create_kb_data : Kind → KbData J
  create_kb_data kind = record {
    kind = kind;
    fields = [];
    items = [];
    auto_refresh = false;
    freed = false;
  }

  -- `json_object_set_new` frees what the key held.
  unfoldable pub free_slot : Option Slot → List (KbData J) → List (KbData J)
  free_slot none objs = objs
  free_slot (some (number n)) objs = objs
  free_slot (some (object i)) objs = change i (λ d. record d { freed = true }) objs

  unfoldable pub set_slot : String → Slot → KbFile J → KbFile J
  set_slot name slot f = record f {
    bus = insert name slot f.bus;
    objs = free_slot (lookup name f.bus) f.objs;
  }

  unfoldable pub add_obj : String → Option Kind → KbFile J → KbFile J × Option ℕ
  add_obj name none f = (f, none)
  add_obj name (some kind) f = (
    set_slot name (object (length f.objs))
        (record f { objs = f.objs ++ (create_kb_data kind ∷ []) }),
    some (length f.objs),
  )

  -- `kbAddObj`: the handle of the new object, or `none` for NULL.
  unfoldable pub kb_add_obj : String → ℕ → KbFile J → KbFile J × Option ℕ
  unfolding add_obj kind_of
  kb_add_obj name type f = add_obj name (kind_of type) f

  unfoldable pub add_to : Kind → String → J → KbData J → KbData J
  add_to struc name value d = record d { fields = insert name value d.fields }
  add_to array name value d = record d { items = d.items ++ (value ∷ []) }

  unfoldable pub store_value : String → J → KbData J → KbData J
  unfolding add_to
  store_value name value d = add_to d.kind name value d

  unfoldable pub is_live : Option (KbData J) → Bool
  is_live none = false
  is_live (some d) = if d.freed then false else true

  -- `kbAddJSON`; `none` is the use of freed data.
  unfoldable pub kb_add_json : ℕ → String → J → KbFile J → Option (KbFile J)
  kb_add_json i name value f =
      if is_live (get_elem? f.objs i)
      then some (record f { objs = change i (store_value name value) f.objs })
      else none

  -- `kbAddInt` and `kbAddStr`, with the library's numbers and texts.
  unfoldable pub kb_add_int : (ℕ → J) → ℕ → String → ℕ → KbFile J → Option (KbFile J)
  kb_add_int json_integer i name n f = kb_add_json i name (json_integer n) f

  unfoldable pub kb_add_str : (List ℕ → J) → ℕ → String → List ℕ → KbFile J → Option (KbFile J)
  kb_add_str json_string i name s f = kb_add_json i name (json_string s) f

  -- `kbSetRefresher`; what the refresher adds is an input of `kb_commit`.
  unfoldable pub kb_set_refresher : ℕ → KbFile J → KbFile J
  kb_set_refresher i f = record f { objs = change i (λ d. record d { auto_refresh = true }) f.objs }

  unfoldable pub add_values : List (String × J) → KbData J → KbData J
  add_values [] d = d
  add_values ((name, value) ∷ values) d = add_values values (store_value name value d)

  unfoldable pub refreshed : List (String × J) → KbData J → KbData J
  refreshed values d = if d.auto_refresh then add_values values d else d

  -- The refreshers, in the order of the objects; `k` is the place of the first of them.
  unfoldable pub refresh_all : (ℕ → List (String × J)) → ℕ → List (KbData J) → List (KbData J)
  unfolding refreshed
  refresh_all fresh k [] = []
  refresh_all fresh k (d ∷ ds) = refreshed (fresh k) d ∷ refresh_all fresh (k + 1) ds

  -- `resetKbData`
  unfoldable pub reset_to : Kind → KbData J → KbData J
  reset_to struc d = record d { fields = [] }
  reset_to array d = record d { items = [] }

  unfoldable pub reset_kb_data : KbData J → KbData J
  unfolding reset_to
  reset_kb_data d = reset_to d.kind d

  unfoldable pub any_freed : List (KbData J) → Bool
  any_freed [] = false
  any_freed (d ∷ ds) = d.freed || any_freed ds

  unfoldable pub show_as : Kind → KbData J → Shown J
  show_as struc d = shown_fields d.fields
  show_as array d = shown_items d.items

  unfoldable pub show_data : Option (KbData J) → Shown J
  unfolding show_as
  show_data none = shown_items []
  show_data (some d) = show_as d.kind d

  unfoldable pub show_slot : List (KbData J) → Slot → Shown J
  unfolding show_data
  show_slot objs (number n) = shown_number n
  show_slot objs (object i) = show_data (get_elem? objs i)

  unfoldable pub dump : KbFile J → Dict (Shown J)
  dump f = map (λ (k, slot). (k, show_slot f.objs slot)) f.bus

  -- The file before it is written: refreshed, with the sequence number and the time.
  unfoldable pub stamped : ℕ → (ℕ → List (String × J)) → KbFile J → KbFile J
  stamped time fresh f = set_slot "unixtime" (number time) (
      set_slot "seqnum" (number f.seq_num)
        (record f { objs = refresh_all fresh 0 f.objs; seq_num = (f.seq_num + 1) % 2 ^ 32 }))

  -- `kbCommit`: what is written, and the file behind it.
  unfoldable pub kb_commit :
      ℕ → (ℕ → List (String × J)) → KbFile J → Option (KbFile J × Dict (Shown J))
  kb_commit time fresh f =
      let g = stamped time fresh f in
      if any_freed g.objs then none else some (record g { objs = map reset_kb_data g.objs }, dump g)

  -- `kbRefreshRate`: seconds and nanoseconds between the commits of the thread.
  unfoldable pub kb_refresh_rate : ℕ → ℕ → KbFile J → KbFile J
  kb_refresh_rate sec nsec f = record f { refresh_intval = (sec, nsec) }
