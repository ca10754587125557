-- ===== src/Gov/Laws/Proposing.antt =====
-- What a proposal that `GovCtrler.ValidateTrx` of ctrlers/gov/ctrler.go lets through is like.
use rigo_go.Base.{ℕ, ◌+◌, ◌^◌, ◌≡◌, ◌<◌, ◌≤◌, Bool, true, false, List, arith, refl, some}
use rigo_go.Base.Bytes.{Bytes}
use rigo_go.Base.Words.{slt, add64}
use rigo_go.Base.Result.{Result, ok, err}
use rigo_go.Base.Store.{Ref}
use rigo_go.Gov.Params.{GovParams}
use rigo_go.Gov.Params.Codec.{ParamsCodec}
use rigo_go.Gov.Proposal.{Int32}
use rigo_go.Ledger.Tree.{TreeOps}
use rigo_go.Account.Heap.{array32}
use rigo_go.Trx.{TrxContext, proposal, propose}
use rigo_go.Gov.Ctrler.{
  GovCodec, StakeHandler, GovCtrler, check_proposing, get_proposal, proposing_after,
  validate_proposing, validate_trx,
}

-- The parameters that the check of a proposal reads are not negative.
pub record IsSane (params : GovParams) : Type 0 where
  pub min_period : params.min_voting_period_blocks < 2 ^ 63
  pub max_period : params.max_voting_period_blocks < 2 ^ 63
  pub lazy : params.lazy_applying_blocks < 2 ^ 63

-- The heights of a proposal, as numbers that did not overflow.
pub record IsScheduled (params : GovParams) (height start period applying : ℕ) : Type 0 where
  pub later : height < start
  pub long : params.min_voting_period_blocks ≤ period
  pub short : period ≤ params.max_voting_period_blocks
  pub fits : start + period < 2 ^ 63
  pub applied_later : start + period ≤ applying
  pub applied_lazily :
      start + period + params.lazy_applying_blocks < 2 ^ 63
      → start + period + params.lazy_applying_blocks ≤ applying
  pub applying_fits : applying < 2 ^ 63

check_proposing-IsScheduled :
    (codec : ParamsCodec) (params : GovParams) (height start period applying : ℕ) (opt_type : Int32)
    (options : List Bytes)
    → IsSane params
    → height < 2 ^ 63
    → start < 2 ^ 64
    → period < 2 ^ 64
    → applying < 2 ^ 64
    → check_proposing codec params height start period applying opt_type options ≡ ok tt
    → IsScheduled params height start period applying
unfolding check_proposing slt add64
check_proposing-IsScheduled codec params height start period applying opt_type options sane h s p a
      e =
    record {
      later = ground (arith, h, s, e);
      long = ground (arith, h, s, p, a, e, sane.min_period, sane.max_period);
      short = ground (arith, h, s, p, a, e, sane.min_period, sane.max_period);
      fits = ground (arith, h, s, p, a, e, sane.min_period, sane.max_period);
      applied_later = ground (arith, h, s, p, a, e, sane.min_period, sane.max_period);
      applied_lazily = ground (arith, h, s, p, a, e, sane.min_period, sane.max_period, sane.lazy);
      applying_fits = ground (arith, h, s, p, a, e, sane.min_period, sane.max_period);
    }

module _ {Tree : Type 0} (codec : GovCodec) (trees : TreeOps Tree) where
  get_proposal-gov_params :
      (k : Bytes) (exec : Bool) (s : GovCtrler Tree)
      → (get_proposal codec trees k exec s).1.gov_params ≡ s.gov_params
  unfolding get_proposal
  get_proposal-gov_params k true s = refl
  get_proposal-gov_params k false s = refl

  proposing_after_lem :
      (ctx : TrxContext) (start period applying : ℕ) (opt_type : Int32) (options : List Bytes)
      (found : Result Ref × GovCtrler Tree)
      → (proposing_after codec trees ctx (start, period, applying, opt_type, options) found).0
        ≡ ok tt
      → check_proposing codec.params found.1.gov_params ctx.height start period applying opt_type
          options
        ≡ ok tt
  unfolding proposing_after
  proposing_after_lem ctx start period applying opt_type options (ok r, s) e = cc
  proposing_after_lem ctx start period applying opt_type options (err x, s) e = ground (arith, e)

  check_proposing-as :
      {params params' : GovParams} (height start period applying : ℕ) (opt_type : Int32)
      (options : List Bytes)
      → params ≡ params'
      → check_proposing codec.params params height start period applying opt_type options ≡ ok tt
      → check_proposing codec.params params' height start period applying opt_type options ≡ ok tt
  check_proposing-as height start period applying opt_type options same e = rw (← same) e

  -- A proposal that is validated comes from a validator, and its schedule holds as numbers: voting
  -- starts after the current height, its period is within the limits and ends without overflow,
  -- and it is applied no earlier than that, and the lazy blocks later when their sum does not
  -- overflow.
  pub validate_trx-IsScheduled :
      (stake : StakeHandler) (ctx : TrxContext) (s : GovCtrler Tree) (message : Bytes)
      (start period applying : ℕ) (opt_type : Int32) (options : List Bytes)
      → IsSane s.gov_params
      → ctx.height < 2 ^ 63
      → start < 2 ^ 64
      → period < 2 ^ 64
      → applying < 2 ^ 64
      → ctx.tx.type ≡ proposal
      → ctx.tx.payload ≡ some (propose message start period applying opt_type options)
      → (validate_trx codec trees stake ctx s).0 ≡ ok tt
      → (stake.is_validator ctx.tx.from ≡ true)
        × IsScheduled s.gov_params ctx.height start period applying
  unfolding validate_trx validate_proposing
  validate_trx-IsScheduled stake ctx s message start period applying opt_type options sane h st p a
        is_proposal has_payload e =
      let found = get_proposal codec trees (array32 ctx.tx_hash) ctx.exec s in
      let scheduled =
        check_proposing-IsScheduled codec.params s.gov_params ctx.height start period applying
          opt_type options sane h st p a in
      let is_validator : stake.is_validator ctx.tx.from ≡ true =
        ground (arith, is_proposal, has_payload, e) in
      let after : (proposing_after codec trees ctx (start, period, applying, opt_type, options)
            found).0
          ≡ ok tt =
        ground (arith, is_proposal, has_payload, e) in
      let kept = get_proposal-gov_params (array32 ctx.tx_hash) ctx.exec s in
      let checked = proposing_after_lem ctx start period applying opt_type options found after in
      (
        is_validator,
        scheduled
            (check_proposing-as ctx.height start period applying opt_type options kept checked),
      )
