-- ===== src/Ledger/Tree.antt =====
-- What the ledgers use of `iavl.MutableTree` (github.com/cosmos/iavl, not part of the repository):
-- operations, and as named hypotheses the documented behaviour that the ledgers rely on.
use rigo_go.Base.{ℕ, ◌≡◌, Option, none, some, List, if◌then◌else◌}
use rigo_go.Base.Bytes.{Bytes, ◌=b◌}
use rigo_go.Base.Result.{Result, ok}

-- An operation that fails may leave any tree behind.
pub record TreeOps (Tree : Type 0) : Type 0 where
  pub get : Tree → Bytes → Result (Option Bytes)
  pub set : Tree → Bytes → Bytes → Result (Unit {0}) × Tree
  pub remove : Tree → Bytes → Result (Unit {0}) × Tree
  pub save_version : Tree → Result (Bytes × ℕ) × Tree
  pub lazy_load_version : Tree → ℕ → Result Tree
  pub version : Tree → ℕ
  -- the pairs that `Iterate` visits, in its order
  pub entries : Tree → List (Bytes × Bytes)

pub record TreeLaws {Tree : Type 0} (trees : TreeOps Tree) : Type 0 where
  pub get-set :
      (t : Tree) (k v j : Bytes)
      → (trees.set t k v).0 ≡ ok tt
      → trees.get (trees.set t k v).1 j ≡ (if k =b j then ok (some v) else trees.get t j)
  pub get-remove :
      (t : Tree) (k j : Bytes)
      → (trees.remove t k).0 ≡ ok tt
      → trees.get (trees.remove t k).1 j ≡ (if k =b j then ok none else trees.get t j)
  pub get-save_version :
      (t : Tree) (r : Bytes × ℕ) (j : Bytes)
      → (trees.save_version t).0 ≡ ok r
      → trees.get (trees.save_version t).1 j ≡ trees.get t j
