-- ===== src/Ledger/Laws/Reads.antt =====
-- What `get`, `Set`, `CancelSet` and `Del` show of one another.
use rigo_go.Base.{◌≡◌, true, arith, if◌then◌else◌, ◌∷◌, [], List, ◌++◌}
use rigo_go.Base.Bytes.{Bytes, ◌=b◌, =b_iff, =b_refl}
use rigo_go.Base.Result.{ok, err, not_found_result}
use rigo_go.Ledger.Map.{elem, lookup-insert, lookup-erase}
use rigo_go.Ledger.MemItems.{MemItems, is_removed_key}
use rigo_go.Ledger.Tree.{TreeOps}
use rigo_go.Ledger.Simple
use rigo_go.Ledger.Simple.{
  ItemOps, SimpleLedger, read_item, get_item, del_item, set_item, cancel_set_item,
}
use rigo_go.Ledger.Finality.{
  FinalityLedger, set_finality, cancel_set_finality, get_finality, del_finality,
}

pub elem-append_self : (k : Bytes) (ks : List Bytes) → elem k (ks ++ k ∷ []) ≡ true
unfolding elem
elem-append_self k [] = ground (arith, =b_refl k)
elem-append_self k (i ∷ is) = ground (arith, elem-append_self k is)

module _ {H T Tree : Type 0} (items : ItemOps H T) (trees : TreeOps Tree) where
  -- After `SetFinality` the item is what `GetFinality` returns at its key, and no other key has
  -- changed; but a key that was deleted since the last commit stays not found.
  pub get_finality-set_finality :
      (k : Bytes) (item : T) (l : FinalityLedger Tree T) (h : H)
      → (get_finality items trees k (set_finality items trees item l) h).0 ≡ (
          if is_removed_key k l.finality_items
          then err not_found_result
          else if items.key item =b k
          then ok item
          else (get_finality items trees k l h).0)
  unfolding get_finality set_finality
  get_finality-set_finality k item l h = ground (
    arith,
    lookup-insert k (items.key item) item l.finality_items.got_items,
    =b_iff (items.key item) k,
  )

  -- After a `SetFinality` and a `CancelSetFinality` of its key, `GetFinality` gives what it reads
  -- from the tree, not what was cached before; a key that was deleted since the last commit stays
  -- not found.
  pub get_finality-cancel_set :
      (item : T) (l : FinalityLedger Tree T) (h : H)
      → let k = items.key item in
        let l' = cancel_set_finality items trees k (set_finality items trees item l) in
        (get_finality items trees k l' h).0 ≡ (
          if is_removed_key k l.finality_items
          then err not_found_result
          else elim (read_item items trees k l.tree h) [ ok (found, _) ↦ ok found | err e ↦ err e ])
  unfolding get_finality set_finality cancel_set_finality
  get_finality-cancel_set item l h =
      let k = items.key item in
      ground (
        arith,
        lookup-erase k k (Simple.set_item items trees item l.finality_items).got_items,
        =b_refl k,
      )

  is_removed-del_item :
      (k : Bytes) (t : Tree) (m : MemItems T) (h : H) {old : T}
      → (del_item items trees k t m h).0 ≡ ok old
      → is_removed_key k (del_item items trees k t m h).1 ≡ true
  unfolding del_item get_item
  is_removed-del_item k t m h e = ground (arith, elem-append_self k m.removed_keys)

  -- An item that is deleted and then set again is not found, although it was set.
  pub get_finality-set-del :
      (k : Bytes) (item : T) (l : FinalityLedger Tree T) (h h' : H) {old : T}
      → (del_finality items trees k l h).0 ≡ ok old
      → (get_finality items trees k
          (set_finality items trees item (del_finality items trees k l h).1)
          h').0
        ≡ err not_found_result
  unfolding get_finality set_finality del_finality
  get_finality-set-del k item l h h' e =
      let h₁ = (Simple.del items trees k l.simple h).2 in
      ground (arith, is_removed-del_item k l.tree l.finality_items h₁ e)

  -- A `GetFinality` that found an item has cached it: a second one, on the ledger that the first
  -- left, gives the same reference and changes neither the ledger nor the heap.
  pub get_finality_again :
      (k : Bytes) (l : FinalityLedger Tree T) (h h' : H) {item : T}
      → (get_finality items trees k l h).0 ≡ ok item
      → let l' = (get_finality items trees k l h).1 in
        get_finality items trees k l' h' ≡ (ok item, l', h')
  unfolding get_finality get_item read_item
  get_finality_again k l h h' e = grind (arith, lookup-insert, =b_iff)
