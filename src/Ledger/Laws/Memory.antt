-- ===== src/Ledger/Laws/Memory.antt =====
-- What a ledger in memory shows of what was set and deleted (ledger/mem_ledger.go).
use rigo_go.Base.{◌≡◌, none, some, List, [], ◌∷◌, arith, refl, if◌then◌else◌}
use rigo_go.Base.Bytes.{Bytes, =b_iff}
use rigo_go.Ledger.Map.{Map, lookup, erase, elem, IsMap, lookup-erase}
use rigo_go.Ledger.MemItems.{copy_items, new_mem_items}
use rigo_go.Ledger.Memory.{MemLedger, erase_all, set_in_memory, get_in_memory, commit_in_memory}
use rigo_go.Ledger.Laws.Coherence.{lookup-copy_items}

module _ {T : Type 0} where
  lookup-erase_all :
      (j : Bytes) (ks : List Bytes) (m : Map T)
      → lookup j (erase_all ks m) ≡ (if elem j ks then none else lookup j m)
  unfolding erase_all elem
  lookup-erase_all j [] m = refl
  lookup-erase_all j (k ∷ ks) m =
      ground (arith, lookup-erase_all j ks (erase k m), lookup-erase j k m, =b_iff j k, =b_iff k j)

module _ {T : Type 0} (key : T → Bytes) where
  -- Where no key is listed twice among the updated items, a commit in memory leaves at a key nothing
  -- if the key was removed, also when it was set again, else the updated item if there is one, and
  -- else what was there; and both caches are empty.
  pub lookup-commit_in_memory :
      (j : Bytes) (l : MemLedger T)
      → IsMap l.cached_items.updated_items
      → (lookup j (commit_in_memory key l).mem_storage ≡ (
          if elem j l.cached_items.removed_keys
          then none
          else elim (lookup j l.cached_items.updated_items) [
            | some item ↦ some item
            | none ↦ lookup j l.mem_storage
          ]))
        × ((commit_in_memory key l).cached_items ≡ new_mem_items)
  unfolding commit_in_memory
  lookup-commit_in_memory j l distinct =
      let m = l.cached_items in
      (
        ground (
          arith,
          lookup-erase_all j m.removed_keys (copy_items m.updated_items l.mem_storage),
          lookup-copy_items j m.updated_items l.mem_storage distinct,
        ),
        refl,
      )

  -- What is set in memory is not seen before the commit: `Get` gives what it gave without it, at
  -- every key.
  pub get_in_memory-set_in_memory :
      (k : Bytes) (item : T) (l : MemLedger T)
      → (get_in_memory key k (set_in_memory key item l)).0 ≡ (get_in_memory key k l).0
  unfolding get_in_memory set_in_memory
  get_in_memory-set_in_memory k item l = ground arith
