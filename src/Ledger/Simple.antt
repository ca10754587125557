-- ===== src/Ledger/Simple.antt =====
-- ledger/simple_ledger.go and the key functions of ledger/types.go. The ledger's mutex makes each
-- operation one step.
use rigo_go.Base.{ℕ, ◌-◌, true, false, Option, none, some, List, [], ◌∷◌, ◌++◌, ltb, if◌then◌else◌}
use rigo_go.Base.Bytes.{Bytes, ◌=b◌}
use rigo_go.Base.Lists.{length, take, replicate}
use rigo_go.Base.Result.{Result, ok, err, not_found_result, ordinary, panicked, from_error}
use rigo_go.Ledger.MemItems.{
  MemItems, new_mem_items, set_got_item, set_updated_item, append_removed_key, is_removed_key,
  get_got_item, del_got_item, del_updated_item, del_removed_key,
}
use rigo_go.Ledger.Tree.{TreeOps}

abbrev pub ledger_key_size : ℕ
ledger_key_size = 32

-- `copy(ret[:], s[:n])` into an array of zeros
unfoldable pub to_ledger_key : Bytes → Bytes
to_ledger_key s =
    let n = if ltb ledger_key_size (length s) then ledger_key_size else length s in
    take n s ++ replicate (ledger_key_size - n) 0

pub record ItemOps (H T : Type 0) : Type 0 where
  pub key : T → Bytes
  pub encode : H → T → Result Bytes
  pub decode : H → Bytes → Result (T × H)

pub record SimpleLedger (Tree T : Type 0) : Type 0 where
  pub tree : Tree
  pub cached_items : MemItems T

module _ {H T Tree : Type 0} (items : ItemOps H T) (trees : TreeOps Tree) where
  -- the check of a decoded item's key
  abbrev checked : Bytes → T × H → Result (T × H)
  checked k (item, h) =
      if k =b items.key item then ok (item, h) else err (ordinary "the key is compromised")

  abbrev decoded : Bytes → H → Option Bytes → Result (T × H)
  decoded k h none = err not_found_result
  decoded k h (some bz) = elim (items.decode h bz) [
    | ok r ↦ checked k r
    | err e ↦ err (from_error e)
  ]

  unfoldable pub read_item : Bytes → Tree → H → Result (T × H)
  unfolding from_error
  read_item k t h = elim (trees.get t k) [
    | ok found ↦ decoded k h found
    | err e ↦ err (from_error e)
  ]

  -- the last step of `get`: cache what was read
  abbrev cache_read : MemItems T → H → Result (T × H) → Result T × MemItems T × H
  cache_read m h (ok (item, h')) = (ok item, set_got_item items.key item m, h')
  cache_read m h (err e) = (err e, m, h)

  abbrev get_cached : Bytes → Tree → MemItems T → H → Option T → Result T × MemItems T × H
  get_cached k t m h (some item) = (ok item, m, h)
  get_cached k t m h none = cache_read m h (read_item k t h)

  -- `get`, on the cache that it is given
  unfoldable pub get_item : Bytes → Tree → MemItems T → H → Result T × MemItems T × H
  unfolding is_removed_key get_got_item set_got_item
  get_item k t m h =
      if is_removed_key k m
      then (err not_found_result, m, h)
      else get_cached k t m h (get_got_item k m)

  -- `del`, on the cache that it is given
  abbrev pub drop_item : Bytes → Result T × MemItems T × H → Result T × MemItems T × H
  drop_item k (ok item, m, h) =
      (ok item, append_removed_key k (del_updated_item k (del_got_item k m)), h)
  drop_item k (err e, m, h) = (err e, m, h)

  unfoldable pub del_item : Bytes → Tree → MemItems T → H → Result T × MemItems T × H
  unfolding append_removed_key del_updated_item del_got_item
  del_item k t m h = drop_item k (get_item k t m h)

  -- `SimpleLedger.Set`
  unfoldable pub set_item : T → MemItems T → MemItems T
  unfolding set_got_item set_updated_item
  set_item item m = set_got_item items.key item (set_updated_item items.key item m)

  -- `SimpleLedger.CancelSet`
  unfoldable pub cancel_set_item : Bytes → MemItems T → MemItems T
  unfolding del_got_item del_updated_item
  cancel_set_item k m = del_got_item k (del_updated_item k m)

  unfoldable pub get : Bytes → SimpleLedger Tree T → H → Result T × SimpleLedger Tree T × H
  unfolding get_item
  get k l h =
      let (r, m, h') = get_item k l.tree l.cached_items h in (r, record l { cached_items = m }, h')

  unfoldable pub del : Bytes → SimpleLedger Tree T → H → Result T × SimpleLedger Tree T × H
  unfolding del_item
  del k l h =
      let (r, m, h') = del_item k l.tree l.cached_items h in (r, record l { cached_items = m }, h')

  unfoldable pub set : T → SimpleLedger Tree T → SimpleLedger Tree T
  unfolding set_item
  set item l = record l { cached_items = set_item item l.cached_items }

  unfoldable pub cancel_set : Bytes → SimpleLedger Tree T → SimpleLedger Tree T
  unfolding cancel_set_item
  cancel_set k l = record l { cached_items = cancel_set_item k l.cached_items }

  unfoldable pub cancel_del : Bytes → SimpleLedger Tree T → SimpleLedger Tree T
  unfolding del_removed_key
  cancel_del k l = record l { cached_items = del_removed_key k l.cached_items }

  -- `Read` leaves the cache alone; what it decodes is a new object.
  unfoldable pub read : Bytes → SimpleLedger Tree T → H → Result (T × H)
  read k l h = read_item k l.tree h

  unfoldable pub version : SimpleLedger Tree T → ℕ
  version l = trees.version l.tree

  unfoldable pub immutable_ledger_at : ℕ → SimpleLedger Tree T → Result (SimpleLedger Tree T)
  unfolding from_error
  immutable_ledger_at n l = elim (trees.lazy_load_version l.tree n) [
    | ok t ↦ ok (record { tree = t; cached_items = new_mem_items })
    | err e ↦ err (from_error e)
  ]

  -- `Clone`: the same tree, and an empty cache
  unfoldable pub clone : SimpleLedger Tree T → SimpleLedger Tree T
  clone l = record { tree = l.tree; cached_items = new_mem_items }

  -- `IterateReadAllItems`: each entry is decoded, its key compared, and then the callback runs on
  -- a state of its own and the heap.
  unfoldable pub iterate_entries :
      {S : Type 0}
      → (T → S × H → Result (Unit {0}) × S × H)
      → List (Bytes × Bytes)
      → S × H
      → Result (Unit {0}) × S × H
  unfolding to_ledger_key
  iterate_entries cb [] (s, h) = (ok tt, s, h)
  iterate_entries cb ((k, bz) ∷ rest) (s, h) = elim (items.decode h bz) [
    | err e ↦ (err (ordinary "item decode error"), s, h)
    | ok (item, h') ↦ elim (items.key item =b to_ledger_key k) [
      | false ↦ (err (ordinary "wrong key"), s, h')
      | true ↦
          let (r, s', h'') = cb item (s, h') in
          elim r [ err e ↦ (err e, s', h'') | ok _ ↦ iterate_entries cb rest (s', h'') ]
    ]
  ]

  unfoldable pub iterate_read_all_items :
      {S : Type 0}
      → (T → S × H → Result (Unit {0}) × S × H)
      → SimpleLedger Tree T
      → S × H
      → Result (Unit {0}) × S × H
  unfolding iterate_entries
  iterate_read_all_items cb l s = iterate_entries cb (trees.entries l.tree) s

  -- `SimpleLedger.Commit` panics.
  unfoldable pub commit : SimpleLedger Tree T → Result (Bytes × ℕ)
  commit l = err panicked
