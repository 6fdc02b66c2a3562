-- ===== src/Estd/Tests.antt =====
-- The theorems about strings, on small inputs.
use cppkg.Base.{
  Option, false, count, ◌+◌, ◌≡◌, ◌↔◌, ◌⊎◌, refl, List, [], ◌∷◌, ◌++◌, none, some, true, ℕ, map,
  if◌then◌else◌, ◌==◌, nat_eq, pos, negsuc,
}
use cppkg.Estd.UnorderedMap.{is_some}
use cppkg.Estd.Contain.{has, get, try_get, must_getf, arr_has, get_keys, map_keyset, lookups_agree}
use cppkg.Estd.Config.{ConfigEntry, destroy_all, get_obj, add_entry, rm_entry}
use cppkg.Estd.Config.{deleted, Effect}
use cppkg.Estd.Config.Entries
use cppkg.Estd.Config.Entries.Moves
use cppkg.Estd.Config.Entries.Moves.{run-owned}
use cppkg.Estd.Config.Owned
use cppkg.Estd.Config.Owned.{made, deletions, run-deletions}
use cppkg.Estd.Config.Lookups.{get_obj_after}
use cppkg.Estd.HashList
use cppkg.Estd.HashList.{HashList, empty, values, from_range}
use cppkg.Estd.HashList.Nodes.{node_of}
use cppkg.Estd.HashList.Invariant.{IsValid, empty-IsValid}
use cppkg.Estd.HashList.Spec.{Op, run, spec_run}
use cppkg.Estd.HashList.Refinement.{run-spec_run}
use cppkg.Estd.HashList.Iterators.{push_back-node_of, from_range-spec_run}
use cppkg.Estd.Ranges.{remove_if, contains, num_range, occurrences, between, remove_if-num_range}
use cppkg.Estd.Strings.{has_prefix, has_prefix_iff, has_affix, has_affix_iff, equal}

abbrev ab : List ℕ
ab = b'a' ∷ b'b' ∷ []

abbrev abc : List ℕ
abc = b'a' ∷ b'b' ∷ b'c' ∷ []

-- The shorter string passes for one that begins with the longer.
has_prefix_runs : (has_prefix abc ab ≡ true) × (has_prefix ab abc ≡ true)
unfolding has_prefix equal
has_prefix_runs = (refl, refl)

has_prefix_iff_example :
    (has_prefix ab abc ≡ true)
    ↔ (((rest : List ℕ) × (ab ≡ abc ++ rest)) ⊎ ((rest : List ℕ) × (abc ≡ ab ++ rest)))
has_prefix_iff_example = has_prefix_iff ab abc

has_affix_iff_run : (has_affix abc ab ≡ true) ↔ ((start : List ℕ) × (abc ≡ start ++ ab))
has_affix_iff_run = has_affix_iff abc ab

-- The entries of a map.
abbrev entries : List (ℕ × ℕ)
entries = (3, 30) ∷ (4, 40) ∷ []

lookups_agree_example :
    (get 0 entries 4 ≡ (has entries 4, try_get entries 4 0))
    × (must_getf entries 4 ≡ (if has entries 4 then some (try_get entries 4 0) else none))
    × (arr_has (get_keys entries) 4 ≡ has entries 4)
    × (arr_has (map_keyset entries []) 4 ≡ has entries 4)
lookups_agree_example = lookups_agree entries 4 0

-- Two objects under one key, one of which is removed.
abbrev config_ops : List (Owned.Op ℕ)
config_ops =
    Owned.Op.add 3 100 true ∷ Owned.Op.add 3 101 true ∷ Owned.Op.rm 3 ∷ Owned.Op.add 3 102 true ∷ []

run-deletions_example :
    made 100 (Owned.run config_ops []).1
    ≡ deletions 100 ((Owned.run config_ops []).1 ++ destroy_all (Owned.run config_ops []).0)
run-deletions_example = run-deletions 100 config_ops

abbrev one_entry : List (ℕ × ConfigEntry)
one_entry = (3, record { object = 100; deletion = true }) ∷ []

get_obj_after_run :
    (get_obj 5 (add_entry 5 200 true one_entry).0 ≡ (
      if has one_entry 5
      then get_obj 5 one_entry
      else if 5 == 5
      then some 200
      else get_obj 5 one_entry))
    × (get_obj 5 (rm_entry 5 one_entry).0 ≡ (if 5 == 5 then none else get_obj 5 one_entry))
get_obj_after_run = get_obj_after 5 5 200 true one_entry

abbrev hash_ops : List (Op ℕ)
hash_ops =
    Op.push_back 3
    ∷ Op.push_back 4
    ∷ Op.push_back 3
    ∷ Op.insert 1 5
    ∷ Op.erase 3
    ∷ Op.insert 9 6
    ∷ Op.pop_back
    ∷ []

-- It holds 5 and 4 at the end.
hash_ops_run : spec_run hash_ops [] ≡ 5 ∷ 4 ∷ []
unfolding spec_run
hash_ops_run = refl

run-spec_run_example :
    (s : HashList ℕ) × (run hash_ops empty ≡ some s)
    × IsValid s
    × (values s.lst ≡ spec_run hash_ops [])
run-spec_run_example = run-spec_run hash_ops

push_back-node_of_run :
    IsValid {T = ℕ} (HashList.push_back {T = ℕ} 3 empty).1
    × (node_of {T = ℕ} 3 (HashList.push_back {T = ℕ} 3 empty).1.lst
        ≡ (HashList.push_back {T = ℕ} 3 empty).0)
    × (is_some (HashList.push_back {T = ℕ} 3 empty).0 ≡ true)
push_back-node_of_run = push_back-node_of 3 empty empty-IsValid

from_range-values :
    IsValid {T = ℕ} (from_range {T = ℕ} (3 ∷ 4 ∷ 3 ∷ []) empty)
    × (values {T = ℕ} (from_range {T = ℕ} (3 ∷ 4 ∷ 3 ∷ []) empty).lst
        ≡ spec_run {T = ℕ} (map Op.push_back (3 ∷ 4 ∷ 3 ∷ [])) [])
from_range-values = from_range-spec_run (3 ∷ 4 ∷ 3 ∷ [])

-- The bounds are given with the higher one first.
remove_if-num_range_example :
    occurrences (pos 7) (
      remove_if
        (negsuc 0 ∷ [])
        (contains (num_range (pos 5) (negsuc 1)))
        (pos 7 ∷ pos 3 ∷ pos 7 ∷ []))
    ≡ (if between (pos 5) (negsuc 1) (pos 7)
        then 0
        else occurrences (pos 7) (pos 7 ∷ pos 3 ∷ pos 7 ∷ []))
remove_if-num_range_example =
    remove_if-num_range (negsuc 0 ∷ []) (pos 7 ∷ pos 3 ∷ pos 7 ∷ []) (pos 5) (negsuc 1) (pos 7)

remove_if_runs :
    remove_if (negsuc 0 ∷ []) (contains (num_range (pos 5) (negsuc 1))) (pos 7 ∷ pos 3 ∷ pos 7 ∷ [])
    ≡ pos 7 ∷ pos 7 ∷ []
unfolding remove_if contains num_range
remove_if_runs = refl

-- Two entries, the second moved twice, over the first at last: the first object is lost, and the
-- second is deleted twice, as the first move leaves its deletion in place.
abbrev entry_ops : List Moves.Op
entry_ops =
    Moves.Op.construct (record { object = 100; deletion = true })
    ∷ Moves.Op.construct (record { object = 101; deletion = true })
    ∷ Moves.Op.move_construct true 1
    ∷ Moves.Op.move_assign false 0 2
    ∷ Moves.Op.destroy_entry 0
    ∷ Moves.Op.destroy_entry 1
    ∷ []

abbrev entries_left : List (Option ConfigEntry)
entries_left = none ∷ none ∷ some (record { object = 101; deletion = false }) ∷ []

abbrev both_deleted : List Effect
both_deleted = deleted 101 ∷ deleted 101 ∷ []

abbrev lost_tally : Moves.Tally
lost_tally = record { gained = 1; copies = 0; lost = 1 }

abbrev copied_tally : Moves.Tally
copied_tally = record { gained = 1; copies = 1; lost = 0 }

lost_object : Moves.run 100 entry_ops [] ≡ some (entries_left, both_deleted, lost_tally)
unfolding Moves.run Moves.apply Moves.copied Moves.overwritten Entries.entry_at Entries.construct
    Entries.destroy_entry Entries.move_construct Entries.move_assign
lost_object = refl

copied_object : Moves.run 101 entry_ops [] ≡ some (entries_left, both_deleted, copied_tally)
unfolding Moves.run Moves.apply Moves.copied Moves.overwritten Entries.entry_at Entries.construct
    Entries.destroy_entry Entries.move_construct Entries.move_assign
copied_object = refl

run-owned_example :
    deletions 101 both_deleted + copied_tally.lost + count (Moves.owned_by 101) entries_left
    ≡ copied_tally.gained + copied_tally.copies
run-owned_example = run-owned 101 entry_ops entries_left both_deleted copied_tally copied_object
