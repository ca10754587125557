-- ===== src/Stake/Laws/Ctrler/Genesis.antt =====
-- What `InitLedger` of ctrlers/stake/ctrler.go makes of the stakes of a validator.
use mathlib.Core.Path.{subst}
use rigo_go.Base.{◌≡◌, true, false, List, [], ◌∷◌, ◌++◌, refl, sym, ◌∙◌}
use rigo_go.Base.Bytes.{Bytes, =b_refl}
use rigo_go.Base.Result.{ok}
use rigo_go.Base.Store.{Ref, allocate, cell-allocate}
use rigo_go.Ledger.Map.{lookup-insert}
use rigo_go.Ledger.MemItems.{is_removed_key}
use rigo_go.Ledger.Tree.{TreeOps}
use rigo_go.Ledger.Simple.{to_ledger_key, get_item}
use rigo_go.Ledger.Finality.{get_finality, set_finality}
use rigo_go.Stake.Item.{Stake}
use rigo_go.Stake.Delegatee.{new_delegatee, add_stake}
use rigo_go.Stake.Ctrler.{StakeCodec, StakeCtrler, get_delegatee}
use rigo_go.Stake.Ctrler.Executing.{set_delegatee}
use rigo_go.Stake.Ctrler.Blocks.{init_stakes}

module _ {Tree : Type 0} (codec : StakeCodec) (trees : TreeOps Tree) where
  init_stakes-append :
      (keys : Bytes) (ss ts : List Stake) (s : StakeCtrler Tree)
      → init_stakes codec trees keys (ss ++ ts) s
        ≡ init_stakes codec trees keys ts (init_stakes codec trees keys ss s)
  unfolding init_stakes
  init_stakes-append keys [] ts s = refl
  init_stakes-append keys (s0 ∷ ss) ts s = init_stakes-append keys ss ts _

  -- no key is removed by it
  init_stakes-removed :
      (k keys : Bytes) (ss : List Stake) (s : StakeCtrler Tree)
      → is_removed_key k (init_stakes codec trees keys ss s).delegatee_ledger.finality_items
        ≡ is_removed_key k s.delegatee_ledger.finality_items
  unfolding init_stakes set_delegatee set_finality is_removed_key
  init_stakes-removed k keys [] s = refl
  init_stakes-removed k keys (s0 ∷ ss) s = init_stakes-removed k keys ss _

  -- What is found once the last stake was put in.
  abbrev pub IsLast : Bytes → Stake → StakeCtrler Tree → Type 0
  IsLast keys s1 s =
      let found = get_delegatee codec trees s1.to true s in
      (r : Ref) × (found.0 ≡ ok r)
      × (found.1.heap.cell r.id ≡ add_stake (s1 ∷ []) (new_delegatee s1.to keys))

  one_stake-IsLast :
      (keys : Bytes) (s1 : Stake) (s : StakeCtrler Tree)
      → is_removed_key (to_ledger_key s1.to) s.delegatee_ledger.finality_items ≡ false
      → IsLast keys s1 (init_stakes codec trees keys (s1 ∷ []) s)
  unfolding init_stakes set_delegatee get_delegatee get_finality set_finality get_item
  one_stake-IsLast keys s1 s kept =
      let k = to_ledger_key s1.to in
      let d = add_stake (s1 ∷ []) (new_delegatee s1.to keys) in
      let (r, h) = allocate s1.to d s.heap in
      let at = lookup-insert k k r s.delegatee_ledger.finality_items.got_items in
      rw (kept, at, =b_refl k) (r, refl, cell-allocate s1.to d s.heap)

  -- Of the stakes that the genesis gives to one delegatee, only the last is kept: once they were put
  -- in, the delegatee that is found has just that stake and its power, if its key was not removed
  -- before.
  pub init_stakes-IsLast :
      (keys : Bytes) (ss : List Stake) (s1 : Stake) (s : StakeCtrler Tree)
      → is_removed_key (to_ledger_key s1.to) s.delegatee_ledger.finality_items ≡ false
      → IsLast keys s1 (init_stakes codec trees keys (ss ++ s1 ∷ []) s)
  init_stakes-IsLast keys ss s1 s kept =
      subst (λ x. IsLast keys s1 x) (sym (init_stakes-append keys ss (s1 ∷ []) s))
        (one_stake-IsLast keys s1 (init_stakes codec trees keys ss s)
          (init_stakes-removed (to_ledger_key s1.to) keys ss s ∙ kept))
