-- ===== src/Tests/Ledgers.antt =====
-- The theorems on ledgers at a ledger that was read, written and deleted from.
use rigo_go.Base.{
  ℕ, ◌≡◌, Bool, true, false, Option, none, some, List, [], ◌∷◌, refl, inl, inr, ◌⊎◌, arith,
}
use mathlib.Core.List.{Perm}
use mathlib.Core.List.Perm.{swap}
use rigo_go.Base.Bytes.{Bytes, =b_iff, ◌=b◌}
use rigo_go.Base.Result.{ok, err, not_found_result}
use rigo_go.Ledger.Map.{Map, lookup, elem, keys}
use rigo_go.Ledger.MemItems.{is_removed_key, new_mem_items}
use rigo_go.Ledger.Simple.{read_item}
use rigo_go.Ledger.Finality.{
  FinalityLedger, opened, set_finality, cancel_set_finality, get_finality, del_finality, commit,
}
use rigo_go.Ledger.Laws.Reads.{get_finality-cancel_set, get_finality-set-del}
use rigo_go.Ledger.Laws.Commit.{get-commit, get_finality-commit, commit_order, SameMap}
use rigo_go.Ledger.Laws.Runs.{Reach, here, next, set_final, del_final, IsSound, Reach-IsSound}
use rigo_go.Ledger.Memory.{MemLedger, commit_in_memory}
use rigo_go.Ledger.Laws.Memory.{lookup-commit_in_memory}
use rigo_go.Tests.Fixture.{map_trees, map_trees-TreeLaws, Pair, pairs}

abbrev pair : ℕ → ℕ → Pair
pair n v = record { name = n; value = v }

abbrev stored : Map Bytes
stored = (2 ∷ [], 2 ∷ 5 ∷ []) ∷ (3 ∷ [], 3 ∷ 7 ∷ []) ∷ []

abbrev start : FinalityLedger (Map Bytes) Pair
start = opened stored

one_set : FinalityLedger (Map Bytes) Pair
unfolding set_finality
one_set = set_finality pairs map_trees (pair 1 10) start

-- 3 is deleted and 1 is set
changed : FinalityLedger (Map Bytes) Pair
unfolding one_set del_finality map_trees
changed = (del_finality pairs map_trees (3 ∷ []) one_set tt).1

-- 3 is set again
recreated : FinalityLedger (Map Bytes) Pair
unfolding changed set_finality
recreated = set_finality pairs map_trees (pair 3 8) changed

changed-Reach : Reach pairs map_trees start changed
unfolding changed one_set
changed-Reach = next (next here (set_final (pair 1 10))) (del_final (3 ∷ []) tt)

recreated-Reach : Reach pairs map_trees start recreated
unfolding recreated
recreated-Reach = next changed-Reach (set_final (pair 3 8))

Reach-IsSound_example : IsSound pairs map_trees recreated
Reach-IsSound_example = Reach-IsSound pairs map_trees stored recreated-Reach

changed-IsSound : IsSound pairs map_trees changed
changed-IsSound = Reach-IsSound pairs map_trees stored changed-Reach

recreated-IsSound : IsSound pairs map_trees recreated
recreated-IsSound = Reach-IsSound pairs map_trees stored recreated-Reach

deleted : (del_finality pairs map_trees (3 ∷ []) one_set tt).0 ≡ ok (pair 3 7)
unfolding del_finality one_set map_trees rigo_go.Ledger.Simple.get_item elem rigo_go.Base.Bytes.◌=b◌
    read_item
deleted = refl

found : (get_finality pairs map_trees (2 ∷ []) changed tt).0 ≡ ok (pair 2 5)
unfolding get_finality changed one_set map_trees read_item elem rigo_go.Base.Bytes.◌=b◌
found = refl

saved : (commit pairs map_trees changed tt).0 ≡ ok ([], 1)
unfolding commit changed one_set map_trees rigo_go.Ledger.Simple.get_item elem
    rigo_go.Base.Bytes.◌=b◌ read_item rigo_go.Base.Sort.sort rigo_go.Ledger.Map.keys
saved = refl

saved' : (commit pairs map_trees recreated tt).0 ≡ ok ([], 1)
unfolding commit recreated changed one_set map_trees rigo_go.Ledger.Simple.get_item elem
    rigo_go.Base.Bytes.◌=b◌ read_item rigo_go.Base.Sort.sort rigo_go.Ledger.Map.keys
    rigo_go.Base.Sort.bytes_gt rigo_go.Base.Bytes.bytes_lt
saved' = refl

clean :
    (elem (1 ∷ []) changed.finality_items.removed_keys ≡ false)
    ⊎ (lookup (1 ∷ []) changed.finality_items.updated_items ≡ none)
unfolding changed one_set map_trees elem rigo_go.Ledger.Simple.get_item rigo_go.Base.Bytes.◌=b◌
    read_item
clean = inl refl

removed : elem (3 ∷ []) recreated.finality_items.removed_keys ≡ true
unfolding recreated changed one_set map_trees elem rigo_go.Ledger.Simple.get_item
    rigo_go.Base.Bytes.◌=b◌ read_item
removed = refl

written : lookup (3 ∷ []) recreated.finality_items.updated_items ≡ some (pair 3 8)
unfolding recreated changed one_set map_trees lookup rigo_go.Ledger.Simple.get_item elem
    rigo_go.Base.Bytes.◌=b◌ read_item
written = refl

get_finality-cancel_set_example :
    (get_finality pairs map_trees
      (2 ∷ [])
      (cancel_set_finality pairs map_trees (2 ∷ []) (set_finality pairs map_trees (pair 2 9) start))
      tt).0
    ≡ ok (pair 2 5)
unfolding get_finality read_item is_removed_key map_trees elem rigo_go.Base.Bytes.◌=b◌
get_finality-cancel_set_example = get_finality-cancel_set pairs map_trees (pair 2 9) start tt

get_finality-set-del_example :
    (get_finality pairs map_trees (3 ∷ []) recreated tt).0 ≡ err not_found_result
unfolding recreated changed
get_finality-set-del_example =
    get_finality-set-del pairs map_trees (3 ∷ []) (pair 3 8) one_set tt tt deleted

get-commit_example : map_trees.get (commit pairs map_trees changed tt).1.tree (3 ∷ []) ≡ ok none
unfolding changed one_set map_trees commit rigo_go.Ledger.Simple.get_item elem
    rigo_go.Base.Bytes.◌=b◌ read_item
get-commit_example =
    get-commit pairs map_trees map_trees-TreeLaws changed changed-IsSound.final tt (3 ∷ []) saved

get_finality-commit_example :
    (get_finality pairs map_trees (1 ∷ []) (commit pairs map_trees changed tt).1 tt).0
    ≡ (get_finality pairs map_trees (1 ∷ []) changed tt).0
get_finality-commit_example =
    get_finality-commit pairs map_trees map_trees-TreeLaws changed changed-IsSound.final tt tt
      (1 ∷ []) saved clean

-- two changed items, and Go's map of them listed the other way round
both_set : FinalityLedger (Map Bytes) Pair
unfolding one_set set_finality
both_set = set_finality pairs map_trees (pair 2 20) one_set

abbrev listed_otherwise : Map Pair
listed_otherwise = (2 ∷ [], pair 2 20) ∷ (1 ∷ [], pair 1 10) ∷ []

one_two_apart : ((1 ∷ []) =b (2 ∷ [])) ≡ false
unfolding ◌=b◌
one_two_apart = refl

same_lookup :
    (k : Bytes) → lookup k both_set.finality_items.updated_items ≡ lookup k listed_otherwise
unfolding both_set one_set map_trees lookup
same_lookup k =
    ground (arith, one_two_apart, =b_iff (1 ∷ []) k, =b_iff (2 ∷ []) k, =b_iff (1 ∷ []) (2 ∷ []))

same_keys_both : Perm (keys both_set.finality_items.updated_items) (keys listed_otherwise)
unfolding both_set one_set map_trees keys ◌=b◌
same_keys_both = swap (2 ∷ []) (1 ∷ []) []

same_map : SameMap pairs map_trees both_set.finality_items.updated_items listed_otherwise
same_map = record { same_keys = same_keys_both; same_values = same_lookup }

commit_order_example :
    let l' = record both_set {
      finality_items = record both_set.finality_items { updated_items = listed_otherwise };
    } in
    ((commit pairs map_trees both_set tt).0 ≡ (commit pairs map_trees l' tt).0)
    × ((commit pairs map_trees both_set tt).1.tree ≡ (commit pairs map_trees l' tt).1.tree)
commit_order_example = commit_order pairs map_trees both_set tt listed_otherwise same_map

-- a ledger in memory where 3 was deleted and set again
abbrev in_memory : MemLedger Pair
in_memory = record {
  mem_storage = (3 ∷ [], pair 3 7) ∷ [];
  cached_items = record {
    got_items = [];
    updated_items = (3 ∷ [], pair 3 8) ∷ [];
    removed_keys = (3 ∷ []) ∷ [];
  };
}

abbrev name_key : Pair → Bytes
name_key p = p.name ∷ []

nothing_else : lookup {T = Pair} (3 ∷ []) [] ≡ none
unfolding lookup
nothing_else = refl

lookup-commit_in_memory_example :
    (lookup (3 ∷ []) (commit_in_memory name_key in_memory).mem_storage ≡ none)
    × ((commit_in_memory name_key in_memory).cached_items ≡ new_mem_items)
unfolding elem ◌=b◌
lookup-commit_in_memory_example =
    lookup-commit_in_memory name_key (3 ∷ []) in_memory (nothing_else, tt)
