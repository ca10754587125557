-- ===== src/Ledger/Memory.antt =====
-- ledger/mem_ledger.go: a ledger whose storage is a Go map. Every operation is one step. `Clone`
-- shares the map with the original; here it is a ledger with the same storage, which is what it is
-- until one of the two commits.
use rigo_go.Base.{Option, none, some, List, [], ◌∷◌, if◌then◌else◌}
use rigo_go.Base.Bytes.{Bytes, ◌=b◌}
use rigo_go.Base.Result.{Result, ok, err, ordinary}
use rigo_go.Ledger.Map.{Map, lookup, erase}
use rigo_go.Ledger.MemItems.{
  MemItems, new_mem_items, set_got_item, set_updated_item, append_removed_key, get_got_item,
  del_got_item, del_updated_item, del_removed_key, reset, copy_items,
}

pub record MemLedger (T : Type 0) : Type 0 where
  pub mem_storage : Map T
  pub cached_items : MemItems T

-- the loop of `Commit` over the removed keys
unfoldable pub erase_all : {T : Type 0} → List Bytes → Map T → Map T
unfolding erase
erase_all [] m = m
erase_all (k ∷ ks) m = erase_all ks (erase k m)

module _ {T : Type 0} (key : T → Bytes) where
  unfoldable pub set_in_memory : T → MemLedger T → MemLedger T
  unfolding set_updated_item
  set_in_memory item l = record l { cached_items = set_updated_item key item l.cached_items }

  unfoldable pub cancel_set_in_memory : Bytes → MemLedger T → MemLedger T
  unfolding del_updated_item
  cancel_set_in_memory k l = record l { cached_items = del_updated_item k l.cached_items }

  abbrev checked_in_memory : Bytes → Option T → Result T
  checked_in_memory k none = err (ordinary "simple_ledger: not found")
  checked_in_memory k (some item) =
      if k =b key item then ok item else err (ordinary "simple_ledger: the key is compromised")

  -- `read`
  unfoldable pub stored_in_memory : Bytes → Map T → Result T
  unfolding lookup
  stored_in_memory k storage = checked_in_memory k (lookup k storage)

  abbrev cache_stored : MemLedger T → Result T → Result T × MemLedger T
  cache_stored l (ok item) =
      (ok item, record l { cached_items = set_got_item key item l.cached_items })
  cache_stored l (err e) = (err e, l)

  -- `Read`
  unfoldable pub read_in_memory : Bytes → MemLedger T → Result T × MemLedger T
  unfolding stored_in_memory set_got_item
  read_in_memory k l = cache_stored l (stored_in_memory k l.mem_storage)

  abbrev got_or_read : Bytes → MemLedger T → Option T → Result T × MemLedger T
  got_or_read k l (some item) = (ok item, l)
  got_or_read k l none = read_in_memory k l

  -- `get`: the removed keys are not asked.
  unfoldable pub get_in_memory : Bytes → MemLedger T → Result T × MemLedger T
  unfolding get_got_item read_in_memory
  get_in_memory k l = got_or_read k l (get_got_item k l.cached_items)

  abbrev drop_in_memory : Bytes → Result T × MemLedger T → Result T × MemLedger T
  drop_in_memory k (ok item, l) = (
    ok item,
    record l {
      cached_items = append_removed_key k (del_updated_item k (del_got_item k l.cached_items));
    },
  )
  drop_in_memory k (err e, l) = (err e, l)

  unfoldable pub del_in_memory : Bytes → MemLedger T → Result T × MemLedger T
  unfolding get_in_memory append_removed_key del_updated_item del_got_item
  del_in_memory k l = drop_in_memory k (get_in_memory k l)

  unfoldable pub cancel_del_in_memory : Bytes → MemLedger T → MemLedger T
  unfolding del_removed_key
  cancel_del_in_memory k l = record l { cached_items = del_removed_key k l.cached_items }

  -- The updated items are written first, and then the removed keys are deleted.
  unfoldable pub commit_in_memory : MemLedger T → MemLedger T
  unfolding copy_items erase_all reset
  commit_in_memory l = record {
    mem_storage =
        erase_all l.cached_items.removed_keys
          (copy_items l.cached_items.updated_items l.mem_storage);
    cached_items = reset l.cached_items;
  }

  unfoldable pub clone_in_memory : MemLedger T → MemLedger T
  clone_in_memory l = record { mem_storage = l.mem_storage; cached_items = new_mem_items }
