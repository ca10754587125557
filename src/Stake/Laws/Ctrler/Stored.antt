-- ===== src/Stake/Laws/Ctrler/Stored.antt =====
-- What the caches of the ledgers hold after a write of a handler of staking.
use rigo_go.Base.{
  ◌≡◌, ◌<◌, Bool, true, false, some, none, refl, ◌∙◌, arith, List, [], ◌∷◌, ◌++◌, inl, inr,
}
use rigo_go.Base.Bytes.{Bytes, =b_refl}
use rigo_go.Base.Store.{Ref, Store, allocate}
use rigo_go.Ledger.Map.{Map, elem, lookup, insert, lookup-insert, lookup-erase}
use rigo_go.Base.Result.{Result, ok, err, Result-cases}
use rigo_go.Stake.Delegatee.{Delegatee}
use rigo_go.Ledger.MemItems.{MemItems, append_removed_key, del_updated_item, del_got_item}
use rigo_go.Ledger.Simple.{set_item, del_item, get_item, read_item, drop_item}
use rigo_go.Ledger.Simple
use rigo_go.Ledger.Finality.{set_finality, del_finality}
use rigo_go.Ledger.Tree.{TreeOps}
use rigo_go.Stake.Ctrler.{StakeCodec, StakeCtrler, delegatee_key, delegatee_items}
use rigo_go.Stake.Ctrler.Executing.{set_delegatee, del_delegatee}

-- An item is in a cache at its key, to be read there and to be written by the commit.
abbrev pub IsStored : {T : Type 0} → Bytes → T → MemItems T → Type 0
IsStored k item m = (lookup k m.got_items ≡ some item) × (lookup k m.updated_items ≡ some item)

pub set_item-IsStored :
    {T : Type 0} (k : Bytes) (item : T) (got updated : Map T)
    → (lookup k (insert k item got) ≡ some item) × (lookup k (insert k item updated) ≡ some item)
set_item-IsStored k item got updated = (
  lookup-insert k k item got ∙ rw (=b_refl k) refl,
  lookup-insert k k item updated ∙ rw (=b_refl k) refl,
)

-- It is in none of the items, and its key is among those that the commit removes.
abbrev pub IsGone : {T : Type 0} → Bytes → MemItems T → Type 0
IsGone k m =
    (lookup k m.got_items ≡ none)
    × (lookup k m.updated_items ≡ none)
    × (elem k m.removed_keys ≡ true)

-- the caches of a block, or of the checks
abbrev pub delegatees_in : {Tree : Type 0} → Bool → StakeCtrler Tree → MemItems Ref
delegatees_in true s = s.delegatee_ledger.finality_items
delegatees_in false s = s.delegatee_ledger.simple.cached_items

module _ {Tree : Type 0} (codec : StakeCodec) (trees : TreeOps Tree) where
  pub set_delegatee-IsStored :
      (r : Ref) (exec : Bool) (s : StakeCtrler Tree)
      → IsStored (delegatee_key r) r (delegatees_in exec (set_delegatee codec trees r exec s))
  unfolding set_delegatee set_finality Simple.set set_item
  set_delegatee-IsStored r true s = set_item-IsStored (delegatee_key r) r _ _
  set_delegatee-IsStored r false s = set_item-IsStored (delegatee_key r) r _ _

  pub set_delegatee-heap :
      (r : Ref) (exec : Bool) (s : StakeCtrler Tree)
      → (set_delegatee codec trees r exec s).heap ≡ s.heap
  unfolding set_delegatee
  set_delegatee-heap r true s = refl
  set_delegatee-heap r false s = refl

  -- An object in use is what it was.
  abbrev Has : Ref → Delegatee → Store Delegatee → Type 0
  Has r d h = (h.cell r.id ≡ d) × (r.id < h.next)

  del_item-Has :
      (r : Ref) (d : Delegatee) (k : Bytes) (t : Tree) (m : MemItems Ref) (h : Store Delegatee)
      → Has r d h
      → Has r d (del_item (delegatee_items codec) trees k t m h).2
  unfolding del_item get_item read_item allocate
  del_item-Has r d k t m h has = ground (arith, has)

  elem-append : (k : Bytes) (ks : List Bytes) → elem k (ks ++ k ∷ []) ≡ true
  unfolding elem
  elem-append k [] = ground (arith, =b_refl k)
  elem-append k (j ∷ ks) = ground (arith, elem-append k ks)

  drop_item-IsGone :
      (k : Bytes) (out : Result Ref × MemItems Ref × Store Delegatee) (r : Ref)
      → (drop_item (delegatee_items codec) trees k out).0 ≡ ok r
      → IsGone k (drop_item (delegatee_items codec) trees k out).1
  unfolding append_removed_key del_updated_item del_got_item
  drop_item-IsGone k (err e, m, h) r done = cc
  drop_item-IsGone k (ok item, m, h) r done = (
    lookup-erase k k m.got_items ∙ rw (=b_refl k) refl,
    lookup-erase k k m.updated_items ∙ rw (=b_refl k) refl,
    elem-append k m.removed_keys,
  )

  -- A deletion in a block keeps the objects in use, and, when it succeeds, its delegatee is gone.
  pub del_delegatee_lem :
      (r : Ref) (d : Delegatee) (s : StakeCtrler Tree)
      → s.heap.cell r.id ≡ d
      → r.id < s.heap.next
      → (del_delegatee codec trees r true s).0 ≡ ok tt
      → let s' = (del_delegatee codec trees r true s).1 in
        (s'.heap.cell r.id ≡ d)
        × IsGone (delegatee_key r) s'.delegatee_ledger.finality_items
        × (s'.frozen_ledger ≡ s.frozen_ledger)
  unfolding del_delegatee del_finality Simple.del del_item
  del_delegatee_lem r d s is used done =
      let items = delegatee_items codec in
      let k = delegatee_key r in
      let first =
        del_item items trees k s.delegatee_ledger.tree s.delegatee_ledger.cached_items s.heap in
      let kept =
        del_item-Has r d k s.delegatee_ledger.tree s.delegatee_ledger.cached_items s.heap
          (is, used) in
      let again =
        del_item-Has r d k s.delegatee_ledger.tree s.delegatee_ledger.finality_items first.2 kept in
      let second =
        get_item items trees k s.delegatee_ledger.tree s.delegatee_ledger.finality_items first.2 in
      elim (Result-cases (drop_item items trees k second).0) [
        | inr (x, e) ↦ absurd (ground (arith, e, done))
        | inl (q, e) ↦ (again.0, drop_item-IsGone k second q e, refl)
      ]
