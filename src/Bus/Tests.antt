-- ===== src/Bus/Tests.antt =====
-- A file with a structure and an array that has a refresher.
use Prim.Native.String.{String}
use kappaio.Common.{ℕ, ◌+◌, ◌≡◌, refl, true, none, some, List, [], ◌∷◌, ◌++◌, map, length, arith}
use kappaio.Common.Dicts.{Dict, lookup, insert}
use kappaio.Bus.{
  KbFile, Shown, shown_number, kb_open, kb_add_obj, add_obj, kind_of, create_kb_data, set_slot,
  free_slot, kb_set_refresher, is_live, change, any_freed,
}
use kappaio.Bus.Close.{kb_close, release_slots, destroy_kb_data}
use kappaio.Bus.Laws.{IsOpen}
use kappaio.Bus.Run.{Op, add, commit, run, written, seq_nums}
use kappaio.Bus.Written.{run-written}

abbrev opened : KbFile ℕ
opened = kb_set_refresher 1 (kb_add_obj "values" 2 (kb_add_obj "state" 1 kb_open).0).0

abbrev fresh : ℕ → List (String × ℕ)
fresh i = ("", 90 + i) ∷ []

abbrev ops : List (Op ℕ)
ops =
    add 1 "" 5
    ∷ add 0 "on" 1
    ∷ commit 100 fresh
    ∷ add 1 "" 6
    ∷ add 1 "" 7
    ∷ commit 102 fresh
    ∷ add 1 "" 8
    ∷ []

opened-IsOpen : IsOpen "values" 1 true opened []
unfolding kb_open kb_add_obj add_obj kind_of create_kb_data set_slot free_slot kb_set_refresher
    change any_freed lookup insert
opened-IsOpen = record {
  slot = refl;
  seq = refl;
  time = refl;
  whole = refl;
  own = record { at = _; there = refl; is_array = refl; holds = refl; refreshes = refl };
}

length-opened : length opened.objs ≡ 2
unfolding kb_open kb_add_obj add_obj kind_of create_kb_data set_slot free_slot kb_set_refresher
    change lookup insert
length-opened = refl

run-written_example :
    (f' : KbFile ℕ) × (ds : List (Dict (Shown ℕ))) × (xs' : List ℕ) × (run ops opened
      ≡ some (f', ds))
    × IsOpen "values" 1 true f' xs'
    × (written "values" ds ++ xs' ≡ 5 ∷ 91 ∷ 6 ∷ 7 ∷ 91 ∷ 8 ∷ [])
    × (map (lookup "seqnum") ds
        ≡ map (λ k. some (shown_number k)) (seq_nums opened.seq_num (length ds)))
run-written_example =
    run-written "values" 1 true (refl, refl) ops opened [] opened-IsOpen
      (rw length-opened
        (omega arith, (omega arith, (tt, (omega arith, (omega arith, (tt, (omega arith, tt))))))))

-- Closing a file with objects releases their data twice.
closed : kb_close opened ≡ none
unfolding kb_close release_slots destroy_kb_data is_live kb_open kb_add_obj add_obj kind_of
    create_kb_data set_slot free_slot kb_set_refresher change any_freed lookup insert
closed = refl
