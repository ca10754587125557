-- ===== src/Ledger/Finality.antt =====
-- ledger/finality_ledger.go: a ledger with a second cache, for the block that is being executed,
-- which `Commit` writes to the tree. (The first, of `SimpleLedger`, serves `CheckTx`.)
use rigo_go.Base.{ℕ, Option, none, some, List, [], ◌∷◌}
use rigo_go.Base.Bytes.{Bytes}
use rigo_go.Base.Result.{Result, ok, err, from_error, panicked}
use rigo_go.Base.Sort.{sort, bytes_gt}
use rigo_go.Ledger.Map.{Map, lookup, keys}
use rigo_go.Ledger.MemItems.{MemItems, new_mem_items, del_removed_key, reset, refresh}
use rigo_go.Ledger.Tree.{TreeOps}
use rigo_go.Ledger.Simple
use rigo_go.Ledger.Simple.{
  ItemOps, SimpleLedger, get_item, del_item, set_item, cancel_set_item, immutable_ledger_at,
}

pub record FinalityLedger (Tree T : Type 0) : Type 0 where
  pub simple : SimpleLedger Tree T
  pub open simple use *
  pub finality_items : MemItems T

-- A ledger that was just opened on a tree.
abbrev pub opened : {Tree T : Type 0} → Tree → FinalityLedger Tree T
opened t = record {
  simple = record { tree = t; cached_items = new_mem_items };
  finality_items = new_mem_items;
}

module _ {H T Tree : Type 0} (items : ItemOps H T) (trees : TreeOps Tree) where
  unfoldable pub set_finality : T → FinalityLedger Tree T → FinalityLedger Tree T
  unfolding set_item
  set_finality item l = record l { finality_items = set_item items trees item l.finality_items }

  unfoldable pub cancel_set_finality : Bytes → FinalityLedger Tree T → FinalityLedger Tree T
  unfolding cancel_set_item
  cancel_set_finality k l = record l {
    finality_items = cancel_set_item items trees k l.finality_items;
  }

  unfoldable pub get_finality :
      Bytes → FinalityLedger Tree T → H → Result T × FinalityLedger Tree T × H
  unfolding get_item
  get_finality k l h =
      let (r, m, h') = get_item items trees k l.tree l.finality_items h in
      (r, record l { finality_items = m }, h')

  -- The item is deleted from the first cache too, whatever comes of that.
  unfoldable pub del_finality :
      Bytes → FinalityLedger Tree T → H → Result T × FinalityLedger Tree T × H
  unfolding del_item Simple.del
  del_finality k l h =
      let (_, simple', h') = Simple.del items trees k l.simple h in
      let (r, m, h'') = del_item items trees k simple'.tree l.finality_items h' in
      (r, record { simple = simple'; finality_items = m }, h'')

  unfoldable pub cancel_del_finality : Bytes → FinalityLedger Tree T → FinalityLedger Tree T
  unfolding del_removed_key
  cancel_del_finality k l = record l { finality_items = del_removed_key k l.finality_items }

  unfoldable pub immutable_finality_at : ℕ → FinalityLedger Tree T → Result (SimpleLedger Tree T)
  unfolding immutable_ledger_at
  immutable_finality_at n l = immutable_ledger_at items trees n l.simple

  -- the first loop of `Commit`
  unfoldable pub remove_all : List Bytes → Tree → Result (Unit {0}) × Tree
  unfolding from_error
  remove_all [] t = (ok tt, t)
  remove_all (k ∷ ks) t =
      let (r, t') = trees.remove t k in
      elim r [ ok _ ↦ remove_all ks t' | err e ↦ (err (from_error e), t') ]

  -- one round of its second loop; a key that is not in the map gives a nil item, on which `Key()`
  -- panics
  unfoldable pub write_item : H → Option T → Tree → Result (Unit {0}) × Tree
  unfolding from_error
  write_item h none t = (err panicked, t)
  write_item h (some item) t = elim (items.encode h item) [
    | err e ↦ (err e, t)
    | ok bz ↦
        let (r, t') = trees.set t (items.key item) bz in
        (elim r [ ok _ ↦ ok tt | err e ↦ err (from_error e) ], t')
  ]

  unfoldable pub write_all : H → Map T → List Bytes → Tree → Result (Unit {0}) × Tree
  unfolding write_item
  write_all h updated [] t = (ok tt, t)
  write_all h updated (k ∷ ks) t =
      let (r, t') = write_item h (lookup k updated) t in
      elim r [ ok _ ↦ write_all h updated ks t' | err e ↦ (err e, t') ]

  unfoldable pub commit : FinalityLedger Tree T → H → Result (Bytes × ℕ) × FinalityLedger Tree T
  unfolding remove_all write_all reset refresh from_error
  commit l h =
      let m = l.finality_items in
      let (r, t) = remove_all m.removed_keys l.tree in
      elim r [
        | err e ↦ (err e, record l { simple = record l.simple { tree = t } })
        | ok _ ↦
            let (r', t') = write_all h m.updated_items (sort bytes_gt (keys m.updated_items)) t in
            elim r' [
              | err e ↦ (err e, record l { simple = record l.simple { tree = t' } })
              | ok _ ↦
                  let (r'', t'') = trees.save_version t' in
                  elim r'' [
                    | err e ↦
                        (err (from_error e), record l { simple = record l.simple { tree = t'' } })
                    | ok saved ↦ (
                      ok saved,
                      record {
                        simple = record { tree = t''; cached_items = reset l.cached_items };
                        finality_items = refresh m;
                      },
                    )
                  ]
            ]
      ]
