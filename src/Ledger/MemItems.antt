-- ===== src/Ledger/MemItems.antt =====
-- ledger/mem_items.go and ledger/helpers.go: the cache of a ledger.
use rigo_go.Base.{Bool, Option, List, [], ◌∷◌, ◌++◌, if◌then◌else◌}
use rigo_go.Base.Bytes.{Bytes, ◌=b◌}
use rigo_go.Base.Result.{Result, ok, err}
use rigo_go.Ledger.Map.{Map, lookup, insert, erase, elem}

pub record MemItems (T : Type 0) : Type 0 where
  pub got_items : Map T
  pub updated_items : Map T
  pub removed_keys : List Bytes

abbrev pub new_mem_items : {T : Type 0} → MemItems T
new_mem_items = record { got_items = []; updated_items = []; removed_keys = [] }

-- `for i, key0 := range m.removedKeys`: drops the first occurrence.
unfoldable pub drop_key : Bytes → List Bytes → List Bytes
drop_key k [] = []
drop_key k (j ∷ js) = if j =b k then js else j ∷ drop_key k js

module _ {T : Type 0} (key : T → Bytes) where
  unfoldable pub set_got_item : T → MemItems T → MemItems T
  set_got_item item m = record m { got_items = insert (key item) item m.got_items }

  unfoldable pub set_updated_item : T → MemItems T → MemItems T
  set_updated_item item m = record m { updated_items = insert (key item) item m.updated_items }

module _ {T : Type 0} where
  unfoldable pub append_removed_key : Bytes → MemItems T → MemItems T
  append_removed_key k m = record m { removed_keys = m.removed_keys ++ k ∷ [] }

  unfoldable pub is_removed_key : Bytes → MemItems T → Bool
  is_removed_key k m = elem k m.removed_keys

  unfoldable pub get_got_item : Bytes → MemItems T → Option T
  get_got_item k m = lookup k m.got_items

  unfoldable pub get_updated_item : Bytes → MemItems T → Option T
  get_updated_item k m = lookup k m.updated_items

  unfoldable pub del_got_item : Bytes → MemItems T → MemItems T
  del_got_item k m = record m { got_items = erase k m.got_items }

  unfoldable pub del_updated_item : Bytes → MemItems T → MemItems T
  del_updated_item k m = record m { updated_items = erase k m.updated_items }

  unfoldable pub del_removed_key : Bytes → MemItems T → MemItems T
  del_removed_key k m = record m { removed_keys = drop_key k m.removed_keys }

  unfoldable pub reset : MemItems T → MemItems T
  reset m = new_mem_items

  -- `for k, v := range m.updatedItems { m.gotItems[k] = v }`
  unfoldable pub copy_items : Map T → Map T → Map T
  copy_items [] got = got
  copy_items ((k, v) ∷ updated) got = copy_items updated (insert k v got)

  unfoldable pub refresh : MemItems T → MemItems T
  refresh m = record {
    got_items = copy_items m.updated_items m.got_items;
    updated_items = [];
    removed_keys = [];
  }

-- The loop of `iterateItems`, over the items in some order: the callback changes a state, and the
-- first error ends the loop.
unfoldable pub iterate_items :
    {S T : Type 0} → (T → S → Result (Unit {0}) × S) → List T → S → Result (Unit {0}) × S
iterate_items cb [] s = (ok tt, s)
iterate_items cb (v ∷ vs) s =
    let (r, s') = cb v s in elim r [ ok _ ↦ iterate_items cb vs s' | err e ↦ (err e, s') ]
