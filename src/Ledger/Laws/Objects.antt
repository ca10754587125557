-- ===== src/Ledger/Laws/Objects.antt =====
-- What the operations of a ledger do to objects in use that its cache does not hold
-- (ledger/simple_ledger.go).
use rigo_go.Base.{
  ℕ, ◌≡◌, ◌<◌, ◌==◌, ◌||◌, Bool, false, some, [], ◌∷◌, inl, inr, Option-cases, Bool-cases, ◌∙◌,
  arith,
}
use rigo_go.Base.Bytes.{Bytes, ◌=b◌}
use rigo_go.Base.Result.{Result, ok, err, Result-cases}
use rigo_go.Base.Store.{Ref, Store}
use rigo_go.Ledger.Map.{Map, elem, lookup, insert, erase}
use rigo_go.Ledger.MemItems.{
  MemItems, set_got_item, set_updated_item, get_got_item, is_removed_key, del_got_item,
  del_updated_item, append_removed_key,
}
use rigo_go.Ledger.Tree.{TreeOps}
use rigo_go.Ledger.Simple.{ItemOps, get_item, read_item, set_item, del_item, drop_item}

-- An object is one of those that a cache holds.
unfoldable pub holds : ℕ → Map Ref → Bool
holds i [] = false
holds i ((k, r) ∷ m) = (r.id == i) || holds i m

lookup-holds :
    (i : ℕ) (k : Bytes) (r : Ref) (m : Map Ref)
    → lookup k m ≡ some r
    → holds i m ≡ false
    → (r.id == i) ≡ false
unfolding lookup holds
lookup-holds i k r [] e h = cc
lookup-holds i k r ((j, q) ∷ m) e h = elim (Bool-cases (j =b k)) [
  | inl hit ↦ ground (arith, hit, e, h)
  | inr miss ↦ lookup-holds i k r m (ground (arith, miss, e)) (ground (arith, h))
]

holds-insert :
    (i : ℕ) (k : Bytes) (r : Ref) (m : Map Ref)
    → holds i m ≡ false
    → (r.id == i) ≡ false
    → holds i (insert k r m) ≡ false
unfolding holds insert
holds-insert i k r [] h other = ground (arith, h, other)
holds-insert i k r ((j, q) ∷ m) h other = elim (Bool-cases (j =b k)) [
  | inl hit ↦ ground (arith, hit, h, other)
  | inr miss ↦ ground (arith, miss, h, other, holds-insert i k r m (ground (arith, h)) other)
]

holds-erase : (i : ℕ) (k : Bytes) (m : Map Ref) → holds i m ≡ false → holds i (erase k m) ≡ false
unfolding holds erase
holds-erase i k [] h = h
holds-erase i k ((j, q) ∷ m) h = elim (Bool-cases (j =b k)) [
  | inl hit ↦ ground (arith, hit, h, holds-erase i k m (ground (arith, h)))
  | inr miss ↦ ground (arith, miss, h, holds-erase i k m (ground (arith, h)))
]

-- an object in use in a heap, what is in it, and that a cache does not hold it
abbrev pub Apart : {A : Type 0} → ℕ → A → MemItems Ref → Store A → Type 0
Apart i a m h = (i < h.next) × (h.cell i ≡ a) × (holds i m.got_items ≡ false)

-- what a look-up gives
abbrev pub IsFound : {A : Type 0} → ℕ → A → Result Ref × MemItems Ref × Store A → Type 0
IsFound i a (ok r, m, h) = ((r.id == i) ≡ false) × Apart i a m h
IsFound i a (err e, m, h) = Apart i a m h

-- Decoding an item makes a new object.
abbrev pub DecodesAfresh : {A : Type 0} → ItemOps (Store A) Ref → ℕ → Type 0
DecodesAfresh {A = A} items i =
    (h : Store A) (bz : Bytes) (x : Ref × Store A)
    → items.decode h bz ≡ ok x
    → i < h.next
    → ((x.0.id == i) ≡ false) × (i < x.1.next) × (x.1.cell i ≡ h.cell i)

module _ {A Tree : Type 0} (items : ItemOps (Store A) Ref) (trees : TreeOps Tree) (i : ℕ)
    (a : A) where
  read_item-fresh :
      (k : Bytes) (t : Tree) (h : Store A) (x : Ref × Store A)
      → DecodesAfresh items i
      → read_item items trees k t h ≡ ok x
      → i < h.next
      → ((x.0.id == i) ≡ false) × (i < x.1.next) × (x.1.cell i ≡ h.cell i)
  unfolding read_item
  read_item-fresh k t h x afresh e below = elim (Result-cases (trees.get t k)) [
    | inr (y, failed) ↦ absurd (ground (arith, failed, e))
    | inl (found, got) ↦ elim (Option-cases found) [
      | inl missing ↦ absurd (ground (arith, got, missing, e))
      | inr (bz, is) ↦ elim (Result-cases (items.decode h bz)) [
        | inr (y, failed) ↦ absurd (ground (arith, got, is, failed, e))
        | inl (y, made) ↦ ground (arith, got, is, made, e, afresh h bz y made below)
      ]
    ]
  ]

  pub get_item-IsFound :
      (k : Bytes) (t : Tree) (m : MemItems Ref) (h : Store A)
      → DecodesAfresh items i
      → Apart i a m h
      → IsFound i a (get_item items trees k t m h)
  unfolding get_item get_got_item is_removed_key set_got_item
  get_item-IsFound k t m h afresh o = elim (Bool-cases (elem k m.removed_keys)) [
    | inl removed ↦ rw removed o
    | inr kept ↦ elim (Option-cases (lookup k m.got_items)) [
      | inr (r, got) ↦ rw (kept, got, get_item) (lookup-holds i k r m.got_items got o.2, o)
      | inl missing ↦ elim (Result-cases (read_item items trees k t h)) [
        | inr (x, failed) ↦ rw (kept, missing, failed, get_item) o
        | inl (x, read) ↦
            let (other, below, same) = read_item-fresh k t h x afresh read o.0 in
            rw (kept, missing, read, get_item)
              (other, (below, same ∙ o.1, holds-insert i _ x.0 m.got_items o.2 other))
      ]
    ]
  ]

  pub set_item-Apart :
      (r : Ref) (m : MemItems Ref) (h : Store A)
      → (r.id == i) ≡ false
      → Apart i a m h
      → Apart i a (set_item items trees r m) h
  unfolding set_item set_got_item set_updated_item
  set_item-Apart r m h other o = (o.0, o.1, holds-insert i _ r m.got_items o.2 other)

  drop_item-Apart :
      (k : Bytes) (out : Result Ref × MemItems Ref × Store A)
      → IsFound i a out
      → let out' = drop_item items trees k out in Apart i a out'.1 out'.2
  unfolding append_removed_key del_updated_item del_got_item
  drop_item-Apart k (ok r, m, h) found =
      (found.1.0, found.1.1, holds-erase i k m.got_items found.1.2)
  drop_item-Apart k (err e, m, h) found = found

  pub del_item-Apart :
      (k : Bytes) (t : Tree) (m : MemItems Ref) (h : Store A)
      → DecodesAfresh items i
      → Apart i a m h
      → let out = del_item items trees k t m h in Apart i a out.1 out.2
  unfolding del_item
  del_item-Apart k t m h afresh o = drop_item-Apart k _ (get_item-IsFound k t m h afresh o)
