-- ===== src/Stake/Ctrler/Blocks.antt =====
-- `StakeCtrler` of ctrlers/stake/ctrler.go: genesis, the choice of the delegatees and the
-- punishments at the begin of a block. An event is what its attributes show.
use rigo_go.Base.{true, List, [], ◌∷◌, ◌++◌, if◌then◌else◌}
use rigo_go.Base.Bytes.{Bytes}
use rigo_go.Base.Words.{Int64, slt}
use rigo_go.Base.Sort.{sort}
use rigo_go.Base.Result.{Result, ok, err, panicked}
use rigo_go.Base.Store.{Ref, Store, allocate, assign}
use rigo_go.Ledger.Tree.{TreeOps}
use rigo_go.Ledger.Simple.{iterate_read_all_items}
use rigo_go.Gov.Params.{GovParams}
use rigo_go.Stake.Item.{Stake}
use rigo_go.Stake.Delegatee.{Delegatee, new_delegatee, add_stake, do_slash, power_order}
use rigo_go.Stake.Limiter.{reset}
use rigo_go.Stake.Ctrler.{
  StakeCodec, StakeCtrler, delegatee_items, get_delegatee, min_validator_power,
}
use rigo_go.Stake.Ctrler.Executing.{set_delegatee}
use rigo_go.Gov.Ctrler.Blocks.{Evidence, Punishment}

pub record InitStake : Type 0 where
  pub pub_keys : Bytes
  pub stakes : List Stake

module _ {Tree : Type 0} (codec : StakeCodec) (trees : TreeOps Tree) where
  -- the inner loop of `InitLedger`: a new delegatee for each stake
  unfoldable pub init_stakes : Bytes → List Stake → StakeCtrler Tree → StakeCtrler Tree
  unfolding new_delegatee add_stake allocate set_delegatee
  init_stakes pub_keys [] s = s
  init_stakes pub_keys (s0 ∷ ss) s =
      let (r, h) = allocate s0.to (add_stake (s0 ∷ []) (new_delegatee s0.to pub_keys)) s.heap in
      init_stakes pub_keys ss (set_delegatee codec trees r true (record s { heap = h }))

  unfoldable pub init_ledger : List InitStake → StakeCtrler Tree → StakeCtrler Tree
  unfolding init_stakes
  init_ledger [] s = s
  init_ledger (i ∷ is) s = init_ledger is (init_stakes i.pub_keys i.stakes s)

  -- the callback of `BeginBlock`: a delegatee with the self power of a validator
  unfoldable pub collect :
      Result Int64
      → Ref
      → List Delegatee × Store Delegatee
      → Result (Unit {0}) × List Delegatee × Store Delegatee
  unfolding slt
  collect (err e) r (ds, h) = (err e, ds, h)
  collect (ok min_power) r (ds, h) =
      (ok tt, (if slt (h.cell r.id).self_power min_power then ds else ds ++ h.cell r.id ∷ []), h)

  abbrev with_limits : GovParams → List Delegatee → StakeCtrler Tree → StakeCtrler Tree
  with_limits gov ds s = record s {
    all_delegatees = ds;
    stake_limiter =
        reset ds gov.max_validator_cnt gov.max_individual_stake_ratio gov.max_updatable_stake_ratio;
  }

  -- The first part of `BeginBlock`: the delegatees of the last commit that may become validators,
  -- in the order of their powers. An error of the iteration is passed over, a panic is not.
  unfoldable pub select_delegatees :
      GovParams → StakeCtrler Tree → Result (Unit {0}) × StakeCtrler Tree
  unfolding iterate_read_all_items collect min_validator_power sort power_order reset
  select_delegatees gov s =
      let (r, ds, h) =
        iterate_read_all_items (delegatee_items codec) trees (collect (min_validator_power gov))
          s.delegatee_ledger.simple ([], s.heap) in
      let s₁ = with_limits gov (sort power_order ds) (record s { heap = h }) in
      (elim r [ ok _ ↦ ok tt | err e ↦ elim e [ panicked ↦ err panicked | _ ↦ ok tt ] ], s₁)

  -- `doPunish`
  unfoldable pub punish_after :
      Int64 → Result Ref × StakeCtrler Tree → Result Int64 × StakeCtrler Tree
  unfolding do_slash assign set_delegatee
  punish_after ratio (err e, s) = (err e, s)
  punish_after ratio (ok r, s) =
      let (slashed, d) = do_slash ratio (s.heap.cell r.id) in
      (ok slashed, set_delegatee codec trees r true (record s { heap = assign r.id d s.heap }))

  unfoldable pub punish : Bytes → Int64 → StakeCtrler Tree → Result Int64 × StakeCtrler Tree
  unfolding get_delegatee punish_after
  punish addr ratio s = punish_after ratio (get_delegatee codec trees addr true s)

  -- the loop over the evidence; an error is logged
  unfoldable pub punish_all :
      Int64 → List Evidence → StakeCtrler Tree → List Punishment × StakeCtrler Tree
  unfolding punish
  punish_all ratio [] s = ([], s)
  punish_all ratio (evi ∷ byzantines) s =
      let (r, s₁) = punish evi.address ratio s in
      let (evts, s₂) = punish_all ratio byzantines s₁ in
      elim r [
        | err e ↦ (evts, s₂)
        | ok slashed ↦ (
          record {
            byzantine = evi.address;
            kind = evi.kind;
            height = evi.height;
            slashed = slashed;
          }
              ∷ evts,
          s₂,
        )
      ]
