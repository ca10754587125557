-- ===== src/Ledger/Map.antt =====
-- Go's `map[LedgerKey]T` as an association list, each key at most once.
use rigo_go.Base.{
  ◌≡◌, refl, Bool, Option, none, some, List, [], ◌∷◌, arith, if◌then◌else◌, true, false, ◌||◌,
}
use rigo_go.Base.Bytes.{Bytes, ◌=b◌, =b_iff}

abbrev pub Map {ℓ} : Type ℓ → Type ℓ
Map T = List (Bytes × T)

module _ {ℓ} {T : Type ℓ} where
  unfoldable pub lookup : Bytes → Map T → Option T
  lookup k [] = none
  lookup k ((j, v) ∷ m) = if j =b k then some v else lookup k m

  -- `m[k] = v`
  unfoldable pub insert : Bytes → T → Map T → Map T
  insert k v [] = (k, v) ∷ []
  insert k v ((j, w) ∷ m) = if j =b k then (k, v) ∷ m else (j, w) ∷ insert k v m

  -- `delete(m, k)`
  unfoldable pub erase : Bytes → Map T → Map T
  erase k [] = []
  erase k ((j, w) ∷ m) = let rest = erase k m in if j =b k then rest else (j, w) ∷ rest

  unfoldable pub keys : Map T → List Bytes
  keys [] = []
  keys ((j, w) ∷ m) = j ∷ keys m

  pub lookup-insert :
      (j k : Bytes) (v : T) (m : Map T)
      → lookup j (insert k v m) ≡ (if k =b j then some v else lookup j m)
  unfolding lookup insert
  lookup-insert j k v [] = refl
  lookup-insert j k v ((i, w) ∷ m) =
      ground (arith, =b_iff k j, =b_iff i k, =b_iff i j, lookup-insert j k v m)

  pub lookup-erase :
      (j k : Bytes) (m : Map T) → lookup j (erase k m) ≡ (if k =b j then none else lookup j m)
  unfolding lookup erase
  lookup-erase j k [] = ground arith
  lookup-erase j k ((i, w) ∷ m) =
      ground (arith, =b_iff k j, =b_iff i k, =b_iff i j, lookup-erase j k m)

-- Membership of a key in a list of keys.
unfoldable pub elem : Bytes → List Bytes → Bool
elem k [] = false
elem k (j ∷ js) = k =b j || elem k js

module _ {ℓ} {T : Type ℓ} where
  -- A key is listed exactly when it has a value.
  pub elem-keys :
      (k : Bytes) (m : Map T) → elem k (keys m) ≡ elim (lookup k m) [ none ↦ false | some _ ↦ true ]
  unfolding elem keys lookup
  elem-keys k [] = refl
  elem-keys k ((j, w) ∷ m) = ground (arith, =b_iff k j, =b_iff j k, elem-keys k m)

module _ {T : Type 0} where
  -- No key is listed twice, as in every Go map.
  abbrev pub IsMap : Map T → Type 0
  IsMap [] = Unit
  IsMap ((k, v) ∷ m) = (lookup k m ≡ none) × IsMap m

  pub insert-IsMap : (k : Bytes) (v : T) (m : Map T) → IsMap m → IsMap (insert k v m)
  unfolding lookup insert
  insert-IsMap k v [] h = (refl, tt)
  insert-IsMap k v ((j, w) ∷ m) h =
      ground (arith, =b_iff j k, =b_iff k j, insert-IsMap k v m h.1, lookup-insert j k v m)

  pub erase-IsMap : (k : Bytes) (m : Map T) → IsMap m → IsMap (erase k m)
  unfolding erase
  erase-IsMap k [] h = tt
  erase-IsMap k ((j, w) ∷ m) h = ground (arith, erase-IsMap k m h.1, lookup-erase j k m)
