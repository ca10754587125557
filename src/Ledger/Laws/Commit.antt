-- ===== src/Ledger/Laws/Commit.antt =====
-- `FinalityLedger.Commit`: what it writes to the tree, in which order, and that no reader sees it.
use rigo_go.Base.{
  ℕ, ◌⊎◌, inl, inr, ◌≡◌, Bool, true, false, none, some, arith, if◌then◌else◌, Option, refl, ◌∷◌, [],
  List, ◌||◌, Option-cases,
}
use rigo_go.Base.Bytes.{Bytes, ◌=b◌, =b_iff}
use rigo_go.Base.Result.{Result, Result-cases, ok, err, panicked, not_found_result}
use rigo_go.Base.Sort.{sort, sort_insert, bytes_gt, bytes_gt-IsStrictTotal, sort-perm, Bytes-set}
use mathlib.Core.List.{Perm}
use rigo_go.Ledger.Map.{Map, lookup, keys, elem, elem-keys}
use rigo_go.Ledger.MemItems.{MemItems, refresh, reset}
use rigo_go.Ledger.Tree.{TreeOps, TreeLaws}
use rigo_go.Ledger.Simple.{ItemOps, read_item}
use rigo_go.Ledger.Finality.{
  FinalityLedger, remove_all, write_item, write_all, commit, get_finality,
}
use rigo_go.Ledger.Laws.Coherence.{IsCoherent, lookup-refresh}

elem-sort_insert :
    (less : Bytes → Bytes → Bool) (k j : Bytes) (ks : List Bytes)
    → elem k (sort_insert less j ks) ≡ (k =b j || elem k ks)
unfolding elem sort_insert
elem-sort_insert less k j [] = refl
elem-sort_insert less k j (i ∷ is) = ground (arith, elem-sort_insert less k j is)

elem-sort :
    (less : Bytes → Bytes → Bool) (k : Bytes) (ks : List Bytes) → elem k (sort less ks) ≡ elem k ks
unfolding elem sort
elem-sort less k [] = refl
elem-sort less k (j ∷ js) =
    ground (arith, elem-sort less k js, elem-sort_insert less k j (sort less js))

module _ {H T Tree : Type 0} (items : ItemOps H T) (trees : TreeOps Tree) where
  -- What stands in the tree for an updated item.
  abbrev pub encoded : H → T → Result (Option Bytes)
  encoded h p = elim (items.encode h p) [ ok bz ↦ ok (some bz) | err e ↦ err e ]

  -- What a commit should leave in the tree at a key: the updated item if there is one, nothing if
  -- the key was removed, and otherwise what was there.
  abbrev pub committed : H → MemItems T → Tree → Bytes → Result (Option Bytes)
  committed h m t k = elim (lookup k m.updated_items) [
    | some p ↦ encoded h p
    | none ↦ if elem k m.removed_keys then ok none else trees.get t k
  ]

  removed-refresh : (j : Bytes) (m : MemItems T) → elem j (refresh m).removed_keys ≡ false
  unfolding refresh elem
  removed-refresh j m = refl

  commit_tidies :
      (l : FinalityLedger Tree T) (h : H) {saved : Bytes × ℕ}
      → (commit items trees l h).0 ≡ ok saved
      → (commit items trees l h).1.finality_items ≡ refresh l.finality_items
  unfolding commit
  commit_tidies l h e = ground arith

  -- A commit tidies both caches, or, where it fails, leaves both alone.
  pub commit-cases :
      (l : FinalityLedger Tree T) (h : H)
      → let l' = (commit items trees l h).1 in
        ((l'.finality_items ≡ refresh l.finality_items) × (l'.cached_items ≡ reset l.cached_items))
        ⊎ ((l'.finality_items ≡ l.finality_items) × (l'.cached_items ≡ l.cached_items))
  unfolding commit
  commit-cases l h = ground arith

  module _ (laws : TreeLaws trees) where
    remove_all_lem :
        (ks : List Bytes) (t : Tree) (j : Bytes)
        → (remove_all items trees ks t).0 ≡ ok tt
        → trees.get (remove_all items trees ks t).1 j
          ≡ (if elem j ks then ok none else trees.get t j)
    unfolding remove_all elem
    remove_all_lem [] t j h = refl
    remove_all_lem (k ∷ ks) t j h = ground (
      arith,
      =b_iff j k,
      =b_iff k j,
      laws.get-remove t k j,
      remove_all_lem ks (trees.remove t k).1 j,
    )

    write_item_lem :
        (h : H) (p : T) (t : Tree) (j : Bytes)
        → (write_item items trees h (some p) t).0 ≡ ok tt
        → trees.get (write_item items trees h (some p) t).1 j
          ≡ (if items.key p =b j then encoded h p else trees.get t j)
    unfolding write_item
    write_item_lem h p t j e = elim (Result-cases (items.encode h p)) [
      | inl (bz, enc) ↦ ground (arith, laws.get-set t (items.key p) bz j)
      | inr (x, enc) ↦ ground arith
    ]

    write_item-none : (h : H) (t : Tree) → (write_item items trees h none t).0 ≡ err panicked
    unfolding write_item
    write_item-none h t = refl

    -- The keys to write are those of updated items, which stand under their own keys.
    write_all_lem :
        (h : H) (updated : Map T) (ks : List Bytes) (t : Tree) (j : Bytes)
        → ((k : Bytes) (p : T) → lookup k updated ≡ some p → items.key p ≡ k)
        → (write_all items trees h updated ks t).0 ≡ ok tt
        → trees.get (write_all items trees h updated ks t).1 j ≡ (
            if elem j ks
            then elim (lookup j updated) [ some p ↦ encoded h p | none ↦ trees.get t j ]
            else trees.get t j)
    unfolding write_all elem
    write_all_lem h updated [] t j keyed e = refl
    write_all_lem h updated (k ∷ ks) t j keyed e = elim (Option-cases (lookup k updated)) [
      | inl missing ↦ ground (arith, write_item-none h t)
      | inr (p, found) ↦ ground (
        arith,
        keyed k p found,
        =b_iff j k,
        =b_iff k j,
        write_item_lem h p t j,
        write_all_lem h updated ks (write_item items trees h (some p) t).1 j keyed,
      )
    ]

    module _ (l : FinalityLedger Tree T) (coherent : IsCoherent items trees l.finality_items) where
      updated_keyed :
          (k : Bytes) (p : T) → lookup k l.finality_items.updated_items ≡ some p → items.key p ≡ k
      updated_keyed k p e = coherent.keyed k p (coherent.shared k p e)

      -- Over a tree that keeps its laws, a commit of a coherent cache that succeeds leaves in the
      -- tree, at every key, the encoding of the updated item if there is one, nothing if the key
      -- was removed and not set again, and otherwise what was there.
      pub get-commit :
          (h : H) (j : Bytes) {saved : Bytes × ℕ}
          → (commit items trees l h).0 ≡ ok saved
          → trees.get (commit items trees l h).1.tree j ≡ committed h l.finality_items l.tree j
      unfolding commit
      get-commit h j {saved} e =
          let m = l.finality_items in
          let ks = sort bytes_gt (keys m.updated_items) in
          let t₁ = (remove_all items trees m.removed_keys l.tree).1 in
          let t₂ = (write_all items trees h m.updated_items ks t₁).1 in
          ground (
            arith,
            remove_all_lem m.removed_keys l.tree j,
            write_all_lem h m.updated_items ks t₁ j updated_keyed,
            elem-sort bytes_gt j (keys m.updated_items),
            elem-keys j m.updated_items,
            laws.get-save_version t₂ saved j,
          )

      -- Over a tree that keeps its laws, a commit of a coherent cache that succeeds changes
      -- nothing for `GetFinality` at a key that was not both removed and set again: what was
      -- cached is the same reference, and what was not is read from the tree as before.
      pub get_finality-commit :
          (h h' : H) (j : Bytes) {saved : Bytes × ℕ}
          → (commit items trees l h).0 ≡ ok saved
          → (elem j l.finality_items.removed_keys ≡ false)
            ⊎ (lookup j l.finality_items.updated_items ≡ none)
          → (get_finality items trees j (commit items trees l h).1 h').0
            ≡ (get_finality items trees j l h').0
      unfolding get_finality read_item
      get_finality-commit h h' j e clean =
          let m = l.finality_items in
          let tidied = commit_tidies l h e in
          let tree = get-commit h j e in
          elim (Option-cases (lookup j m.updated_items)) [
            | inl fresh ↦ ground (
              arith,
              tidied,
              tree,
              fresh,
              clean,
              lookup-refresh items trees j m coherent,
              removed-refresh j m,
              coherent.hidden j,
            )
            | inr (p, written) ↦ ground (
              arith,
              tidied,
              written,
              clean,
              lookup-refresh items trees j m coherent,
              removed-refresh j m,
              coherent.shared j p written,
            )
          ]

      -- A key that was removed and set again, in a coherent cache, is not found before a commit
      -- that succeeds, and is found after it.
      pub get_finality_recreated :
          (h h' : H) (j : Bytes) (p : T) {saved : Bytes × ℕ}
          → (commit items trees l h).0 ≡ ok saved
          → elem j l.finality_items.removed_keys ≡ true
          → lookup j l.finality_items.updated_items ≡ some p
          → ((get_finality items trees j l h').0 ≡ err not_found_result)
            × ((get_finality items trees j (commit items trees l h).1 h').0 ≡ ok p)
      unfolding get_finality
      get_finality_recreated h h' j p e removed written =
          let m = l.finality_items in
          ground (
            arith,
            removed,
            commit_tidies l h e,
            lookup-refresh items trees j m coherent,
            removed-refresh j m,
            coherent.shared j p written,
          )

  -- Two listings of one map: the same keys in some order, with the same values.
  pub record SameMap (u v : Map T) : Type 0 where
    pub same_keys : Perm (keys u) (keys v)
    pub same_values : (k : Bytes) → lookup k u ≡ lookup k v

  write_all_same :
      (h : H) (u v : Map T) (ks : List Bytes) (t : Tree)
      → ((k : Bytes) → lookup k u ≡ lookup k v)
      → write_all items trees h u ks t ≡ write_all items trees h v ks t
  unfolding write_all
  write_all_same h u v [] t same = refl
  write_all_same h u v (k ∷ ks) t same =
      ground
        (arith, same k, write_all_same h u v ks (write_item items trees h (lookup k v) t).1 same)

  -- The order in which Go's map iteration lists the updated items has no influence on what a
  -- commit returns, hash included, or on the tree that it leaves.
  pub commit_order :
      (l : FinalityLedger Tree T) (h : H) (v : Map T)
      → SameMap l.finality_items.updated_items v
      → let l' = record l { finality_items = record l.finality_items { updated_items = v } } in
        ((commit items trees l h).0 ≡ (commit items trees l' h).0)
        × ((commit items trees l h).1.tree ≡ (commit items trees l' h).1.tree)
  unfolding commit
  commit_order l h v same =
      let m = l.finality_items in
      let t = (remove_all items trees m.removed_keys l.tree).1 in
      let sorted = sort-perm bytes_gt-IsStrictTotal Bytes-set same.same_keys in
      let written =
        write_all_same h m.updated_items v (sort bytes_gt (keys v)) t same.same_values in
      ground (arith, sorted, written)
