-- ===== src/Ledger/Laws/Coherence.antt =====
-- The invariant of a cache, and that every operation keeps it.
use rigo_go.Base.{
  ◌⊎◌, inl, inr, Bool-cases, Option-cases, ◌≡◌, true, false, none, some, arith, refl, ◌∷◌, [], List,
  ◌++◌,
}
use rigo_go.Base.Bytes.{Bytes, =b_iff}
use rigo_go.Base.Result.{Result-cases, ok}
use rigo_go.Ledger.Map.{
  Map, lookup, IsMap, insert-IsMap, erase-IsMap, insert, elem, lookup-insert, lookup-erase,
}
use rigo_go.Ledger.MemItems.{
  new_mem_items, append_removed_key, del_updated_item, del_got_item, MemItems, drop_key,
  del_removed_key, copy_items, refresh, reset,
}
use rigo_go.Ledger.Tree.{TreeOps}
use rigo_go.Ledger.Simple.{ItemOps, read_item, get_item, del_item, set_item, cancel_set_item}

-- Lemmas on the list of removed keys and on the copying of `refresh`.
elem-drop_key : (k j : Bytes) (ks : List Bytes) → elem k (drop_key j ks) ≡ true → elem k ks ≡ true
unfolding elem drop_key
elem-drop_key k j [] h = h
elem-drop_key k j (i ∷ is) h = ground (arith, elem-drop_key k j is)

elem-append_last_inv :
    (k j : Bytes) (ks : List Bytes) → elem k (ks ++ j ∷ []) ≡ true → (elem k ks ≡ true) ⊎ (k ≡ j)
unfolding elem
elem-append_last_inv k j [] h = ground (arith, =b_iff k j)
elem-append_last_inv k j (i ∷ is) h = ground (arith, elem-append_last_inv k j is)

-- After the copying of `refresh` an updated item stands in the place of the one before.
pub lookup-copy_items :
    {T : Type 0} (k : Bytes) (updated got : Map T)
    → IsMap updated
    → lookup k (copy_items updated got)
      ≡ elim (lookup k updated) [ some q ↦ some q | none ↦ lookup k got ]
unfolding lookup copy_items
lookup-copy_items k [] got h = refl
lookup-copy_items k ((j, v) ∷ updated) got h =
    ground
      (arith, =b_iff j k, lookup-copy_items k updated (insert j v got) h.1, lookup-insert k j v got)

module _ {H T Tree : Type 0} (items : ItemOps H T) (trees : TreeOps Tree) where
  -- Items stand under their own keys; an updated item is the one that is read; a removed key that
  -- was not set again has no item.
  pub record IsCoherent (m : MemItems T) : Type 0 where
    pub distinct : IsMap m.updated_items
    pub keyed : (k : Bytes) (p : T) → lookup k m.got_items ≡ some p → items.key p ≡ k
    pub shared :
        (k : Bytes) (p : T) → lookup k m.updated_items ≡ some p → lookup k m.got_items ≡ some p
    pub hidden :
        (k : Bytes)
        → elem k m.removed_keys ≡ true
        → lookup k m.updated_items ≡ none
        → lookup k m.got_items ≡ none

  pub set_item-IsCoherent :
      (item : T) (m : MemItems T) → IsCoherent m → IsCoherent (set_item items trees item m)
  unfolding set_item
  set_item-IsCoherent item m c =
      let k = items.key item in
      record {
        distinct = insert-IsMap k item m.updated_items c.distinct;
        keyed =
            λ j p e. ground (arith, c.keyed j p, lookup-insert j k item m.got_items, =b_iff k j);
        shared = λ j p e. ground (
          arith,
          c.shared j p,
          lookup-insert j k item m.got_items,
          lookup-insert j k item m.updated_items,
        );
        hidden = λ j r e. ground (
          arith,
          c.hidden j r,
          lookup-insert j k item m.got_items,
          lookup-insert j k item m.updated_items,
        );
      }

  pub cancel_set_item-IsCoherent :
      (k : Bytes) (m : MemItems T) → IsCoherent m → IsCoherent (cancel_set_item items trees k m)
  unfolding cancel_set_item
  cancel_set_item-IsCoherent k m c = record {
    distinct = erase-IsMap k m.updated_items c.distinct;
    keyed = λ j p e. ground (arith, c.keyed j p, lookup-erase j k m.got_items);
    shared = λ j p e.
        ground
          (arith, c.shared j p, lookup-erase j k m.got_items, lookup-erase j k m.updated_items);
    hidden = λ j r e.
        ground
          (arith, c.hidden j r, lookup-erase j k m.got_items, lookup-erase j k m.updated_items);
  }

  read_item-key :
      (k : Bytes) (t : Tree) (h : H) {r : T × H}
      → read_item items trees k t h ≡ ok r
      → items.key r.0 ≡ k
  unfolding read_item
  read_item-key k t h e = grind (arith, =b_iff)

  -- `get` leaves the cache alone, or adds the item that it read under its key.
  get_item-cases :
      (k : Bytes) (t : Tree) (m : MemItems T) (h : H)
      → ((get_item items trees k t m h).1 ≡ m)
        ⊎ ((item : T) × (items.key item ≡ k)
            × (elem k m.removed_keys ≡ false)
            × (lookup k m.got_items ≡ none)
            × ((get_item items trees k t m h).1
                ≡ record m { got_items = insert (items.key item) item m.got_items }))
  unfolding get_item
  get_item-cases k t m h = elim (Bool-cases (elem k m.removed_keys)) [
    | inl removed ↦ inl (rw removed)
    | inr kept ↦ elim (Option-cases (lookup k m.got_items)) [
      | inr (p, cached) ↦ inl (rw (kept, cached))
      | inl missed ↦ elim (Result-cases (read_item items trees k t h)) [
        | inl ((item, h'), found) ↦
            inr (item, read_item-key k t h found, kept, missed, rw (kept, missed, found))
        | inr (e, failed) ↦ inl (rw (kept, missed, failed))
      ]
    ]
  ]

  add_got-IsCoherent :
      (item : T) (m : MemItems T)
      → elem (items.key item) m.removed_keys ≡ false
      → lookup (items.key item) m.updated_items ≡ none
      → IsCoherent m
      → IsCoherent (record m { got_items = insert (items.key item) item m.got_items })
  add_got-IsCoherent item m kept fresh c =
      let k = items.key item in
      record {
        distinct = c.distinct;
        keyed =
            λ j p e. ground (arith, c.keyed j p, lookup-insert j k item m.got_items, =b_iff k j);
        shared =
            λ j p e. ground (arith, c.shared j p, lookup-insert j k item m.got_items, =b_iff k j);
        hidden =
            λ j r e. ground (arith, c.hidden j r, lookup-insert j k item m.got_items, =b_iff k j);
      }

  pub get_item-IsCoherent :
      (k : Bytes) (t : Tree) (m : MemItems T) (h : H)
      → IsCoherent m
      → IsCoherent (get_item items trees k t m h).1
  get_item-IsCoherent k t m h c = elim (get_item-cases k t m h) [
    | inl same ↦ rw same c
    | inr (item, at, kept, missed, added) ↦ rw added (
        add_got-IsCoherent item m (rw at kept)
          (rw at (elim (Option-cases (lookup k m.updated_items)) [
            | inl e ↦ e
            | inr (p, e) ↦ cc (c.shared k p e)
          ]))
          c)
  ]

  -- the three writes of `del`
  drop-IsCoherent :
      (k : Bytes) (m : MemItems T)
      → IsCoherent m
      → IsCoherent (append_removed_key k (del_updated_item k (del_got_item k m)))
  unfolding append_removed_key del_updated_item del_got_item
  drop-IsCoherent k m c = record {
    distinct = erase-IsMap k m.updated_items c.distinct;
    keyed = λ j p e. ground (arith, c.keyed j p, lookup-erase j k m.got_items);
    shared = λ j p e.
        ground
          (arith, c.shared j p, lookup-erase j k m.got_items, lookup-erase j k m.updated_items);
    hidden = λ j r e. ground (
      arith,
      c.hidden j,
      lookup-erase j k m.got_items,
      lookup-erase j k m.updated_items,
      elem-append_last_inv j k m.removed_keys,
      =b_iff k j,
    );
  }

  pub del_item-IsCoherent :
      (k : Bytes) (t : Tree) (m : MemItems T) (h : H)
      → IsCoherent m
      → IsCoherent (del_item items trees k t m h).1
  unfolding del_item
  del_item-IsCoherent k t m h c =
      let (r, m', h') = get_item items trees k t m h in
      elim (Result-cases r) [
        | inl (item, e) ↦ rw e (drop-IsCoherent k m' (get_item-IsCoherent k t m h c))
        | inr (x, e) ↦ rw e (get_item-IsCoherent k t m h c)
      ]

  pub del_removed_key-IsCoherent :
      (k : Bytes) (m : MemItems T) → IsCoherent m → IsCoherent (del_removed_key k m)
  unfolding del_removed_key
  del_removed_key-IsCoherent k m c = record {
    distinct = c.distinct;
    keyed = c.keyed;
    shared = c.shared;
    hidden = λ j r. c.hidden j (elem-drop_key j k m.removed_keys r);
  }

  -- `refresh` changes no item that is read.
  pub lookup-refresh :
      (k : Bytes) (m : MemItems T)
      → IsCoherent m
      → lookup k (refresh m).got_items ≡ lookup k m.got_items
  unfolding refresh
  lookup-refresh k m c = elim (Option-cases (lookup k m.updated_items)) [
    | inl e ↦ rw (lookup-copy_items k m.updated_items m.got_items c.distinct, e)
    | inr (p, e) ↦
        rw (lookup-copy_items k m.updated_items m.got_items c.distinct, e, c.shared k p e)
  ]

  pub refresh-IsCoherent : (m : MemItems T) → IsCoherent m → IsCoherent (refresh m)
  unfolding refresh lookup elem
  refresh-IsCoherent m c = record {
    distinct = tt;
    keyed = λ j p e. c.keyed j p (rw (← lookup-refresh j m c) e);
    shared = λ j p e. cc;
    hidden = λ j r e. cc;
  }

  pub new_mem_items-IsCoherent : IsCoherent new_mem_items
  unfolding lookup elem
  new_mem_items-IsCoherent = record {
    distinct = tt;
    keyed = λ j p e. cc;
    shared = λ j p e. cc;
    hidden = λ j r e. cc;
  }

  pub reset-IsCoherent : (m : MemItems T) → IsCoherent (reset m)
  unfolding reset
  reset-IsCoherent m = new_mem_items-IsCoherent
