-- ===== src/Ledger/Laws/Iteration.antt =====
-- What the callback of an iteration keeps, the iteration keeps (`IterateReadAllItems` of
-- ledger/simple_ledger.go).
use rigo_go.Base.{◌≡◌, true, arith, refl, List, [], ◌∷◌, Bool-cases, inl, inr}
use rigo_go.Base.Bytes.{Bytes, ◌=b◌}
use rigo_go.Base.Result.{Result, ok, Result-cases}
use rigo_go.Ledger.Tree.{TreeOps}
use rigo_go.Ledger.Simple.{
  ItemOps, SimpleLedger, iterate_entries, iterate_read_all_items, to_ledger_key,
}

module _ {H T : Type 0} {S : Type 0} (items : ItemOps H T) (P : S → Type 0)
    (cb : T → S × H → Result (Unit {0}) × S × H)
    (keeps : (item : T) (s : S) (h : H) → P s → P (cb item (s, h)).1) where
  entries-inv :
      {Tree : Type 0} (trees : TreeOps Tree) (entries : List (Bytes × Bytes)) (s : S) (h : H)
      → P s
      → P (iterate_entries items trees cb entries (s, h)).1
  unfolding iterate_entries
  entries-inv trees [] s h p = p
  entries-inv trees ((k, bz) ∷ rest) s h p = elim (Result-cases (items.decode h bz)) [
    | inr (x, d) ↦ rw (d, iterate_entries) p
    | inl ((item, h'), d) ↦ elim (Bool-cases (items.key item =b to_ledger_key k)) [
      | inr b ↦ rw (d, b, iterate_entries) p
      | inl b ↦
          let (_, s', h'') = cb item (s, h') in
          elim (Result-cases (cb item (s, h')).0) [
            | inr (x, c) ↦ rw (d, b, c, iterate_entries) (keeps item s h' p)
            | inl (_, c) ↦
                rw (d, b, c, iterate_entries) (entries-inv trees rest s' h'' (keeps item s h' p))
          ]
    ]
  ]

  -- A predicate that the callback keeps, whatever the item and the heap, is kept by the iteration,
  -- whether it comes to its end or is stopped by an error.
  pub iterate_read_all_items-inv :
      {Tree : Type 0} (trees : TreeOps Tree) (l : SimpleLedger Tree T) (s : S) (h : H)
      → P s
      → P (iterate_read_all_items items trees cb l (s, h)).1
  unfolding iterate_read_all_items
  iterate_read_all_items-inv trees l s h p = entries-inv trees (trees.entries l.tree) s h p

module _ {H T : Type 0} {S : Type 0} {Tree : Type 0} (items : ItemOps H T) (trees : TreeOps Tree)
    (cb : T → S × H → Result (Unit {0}) × S × H) where
  -- An iteration runs its callback on the first item, and goes on if that succeeds.
  pub iterate_entries-step :
      (k bz : Bytes) (rest : List (Bytes × Bytes)) (s : S) (h h' : H) (item : T)
      → items.decode h bz ≡ ok (item, h')
      → (items.key item =b to_ledger_key k) ≡ true
      → (cb item (s, h')).0 ≡ ok tt
      → iterate_entries items trees cb ((k, bz) ∷ rest) (s, h)
        ≡ iterate_entries items trees cb rest ((cb item (s, h')).1, (cb item (s, h')).2)
  unfolding iterate_entries
  iterate_entries-step k bz rest s h h' item d b c = rw (d, b, c, iterate_entries) refl

  -- It succeeds only if the callback does on the first item.
  pub iterate_entries-first :
      (k bz : Bytes) (rest : List (Bytes × Bytes)) (s : S) (h h' : H) (item : T)
      → items.decode h bz ≡ ok (item, h')
      → (iterate_entries items trees cb ((k, bz) ∷ rest) (s, h)).0 ≡ ok tt
      → ((items.key item =b to_ledger_key k) ≡ true) × ((cb item (s, h')).0 ≡ ok tt)
  unfolding iterate_entries
  iterate_entries-first k bz rest s h h' item d done =
      elim (Bool-cases (items.key item =b to_ledger_key k)) [
        | inr b ↦ absurd (ground (arith, d, b, done))
        | inl b ↦ elim (Result-cases (cb item (s, h')).0) [
          | inr (x, c) ↦ absurd (ground (arith, d, b, c, done))
          | inl (_, c) ↦ (b, c)
        ]
      ]
