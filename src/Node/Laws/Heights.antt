-- ===== src/Node/Laws/Heights.antt =====
-- The heights of the last block and of the one being executed, through each call of the application
-- (node/app.go).
use rigo_go.Base.{
  ◌≡◌, Bool, true, false, Bool-cases, inl, inr, ◌==◌, Option, none, some, refl, sym, ap, ◌∙◌, arith,
}
use rigo_go.Base.Bytes.{Bytes}
use rigo_go.Base.Words.{Int64, add64}
use rigo_go.Base.Result.{Result, ok, err, panicked, Result-cases}
use rigo_go.Trx.{TrxContext}
use rigo_go.Node.Executor.{Ran}
use rigo_go.Node.BlockContext.{
  BlockInfo, BlockContext, new_block_context, add_fee, add_txs_cnt, set_app_hash, set_val_updates,
}
use rigo_go.Node.App.{Ctrlers, AppWorld, Env, RigoApp, context_of}
use rigo_go.Node.App.Delivering.{
  fee_for, check_tx, checked, charged_fee, delivered, deliver_tx, execute,
}
use rigo_go.Node.App.Blocks.{begin_block, end_all, ended, end_block}
use rigo_go.Node.App.Starting.{GenesisOps, InitRequest, init_chain}
use rigo_go.Node.App.Committing.{Versions, commit, commit_all, kept_block}

module _ {Tree V Db : Type 0} where
  -- The last block is at a height, and the block being executed, if there is one, at the next.
  pub record IsAt (h : Int64) (a : RigoApp Tree V Db) : Type 0 where
    pub last : (c : BlockContext) × (a.last_block_ctx ≡ some c) × (c.block_info.height ≡ h)
    pub next : (c : BlockContext) → a.next_block_ctx ≡ some c → c.block_info.height ≡ add64 h 1

  -- it depends on the two contexts alone
  pub IsAt-as :
      (h : Int64) (a b : RigoApp Tree V Db)
      → b.last_block_ctx ≡ a.last_block_ctx
      → b.next_block_ctx ≡ a.next_block_ctx
      → IsAt h a
      → IsAt h b
  IsAt-as h a b l n at = record {
    last = (at.last.0, l ∙ at.last.1, at.last.2);
    next = λ c e. at.next c (sym n ∙ e);
  }

  next-IsAt :
      (h : Int64) (next : BlockContext) (a : RigoApp Tree V Db)
      → next.block_info.height ≡ add64 h 1
      → IsAt h a
      → IsAt h (record a { next_block_ctx = some next })
  next-IsAt h next a e at = record { last = at.last; next = λ c is. ground (arith, is, e) }

module _ {Tree V Db : Type 0} (env : Env Tree V Db) where
  checked-contexts :
      (ran : Ran Tree (Ctrlers Tree V)) (a : RigoApp Tree V Db)
      → ((checked env ran a).1.last_block_ctx ≡ a.last_block_ctx)
        × ((checked env ran a).1.next_block_ctx ≡ a.next_block_ctx)
  unfolding checked
  checked-contexts ran a = (refl, refl)

  pub check_tx-contexts :
      (new : Bool) (bz : Bytes) (a : RigoApp Tree V Db)
      → ((check_tx env new bz a).1.last_block_ctx ≡ a.last_block_ctx)
        × ((check_tx env new bz a).1.next_block_ctx ≡ a.next_block_ctx)
  unfolding check_tx checked
  check_tx-contexts false bz a = (refl, refl)
  check_tx-contexts true bz a = ground arith

  charged_fee-IsAt :
      (h : Int64) (ran : Ran Tree (Ctrlers Tree V)) (next : BlockContext) (a : RigoApp Tree V Db)
      → next.block_info.height ≡ add64 h 1
      → IsAt h a
      → IsAt h (charged_fee env ran next a).1
  unfolding charged_fee add_fee
  charged_fee-IsAt h ran next a e at =
      let a' : RigoApp Tree V Db = record a { world = ran.world } in
      elim (Result-cases ran.result) [
        | inr (x, d) ↦ rw (d, charged_fee) (IsAt-as h a a' refl refl at)
        | inl (_, d) ↦
            elim (Result-cases (fee_for ran.ctx.gas_used ran.world.rest.gov.gov_params)) [
              | inr (x, d') ↦ rw (d, d', charged_fee) (IsAt-as h a a' refl refl at)
              | inl (fee, d') ↦
                  rw (d, d', charged_fee)
                    (next-IsAt h (add_fee fee next) a' e (IsAt-as h a a' refl refl at))
            ]
      ]

  delivered-IsAt :
      (h : Int64) (r : Result TrxContext) (next : BlockContext) (a : RigoApp Tree V Db)
      → next.block_info.height ≡ add64 h 1
      → IsAt h a
      → IsAt h (delivered env r next a).1
  unfolding delivered
  delivered-IsAt h (err x) next a e at = at
  delivered-IsAt h (ok ctx) next a e at = charged_fee-IsAt h (execute env ctx a.world) next a e at

  pub deliver_tx-IsAt :
      (h : Int64) (bz : Bytes) (a : RigoApp Tree V Db) (next : Option BlockContext)
      → a.next_block_ctx ≡ next
      → IsAt h a
      → IsAt h (deliver_tx env bz a).1
  unfolding deliver_tx add_txs_cnt
  deliver_tx-IsAt h bz a none d at = rw (d, deliver_tx) at
  deliver_tx-IsAt h bz a (some next) d at = elim (Result-cases (env.decode_trx bz)) [
    | inr (x, undecoded) ↦
        rw (d, undecoded, deliver_tx) (delivered-IsAt h (err x) next a (at.next next d) at)
    | inl (tx, decoded) ↦
        let counted = add_txs_cnt 1 next in
        let (r, accts) =
          context_of env tx (env.hash_trx bz) next.block_info.height true a.world.accts in
        let a' : RigoApp Tree V Db = record a { world = record a.world { accts = accts } } in
        rw (d, decoded, deliver_tx)
          (delivered-IsAt h r counted (record a' { next_block_ctx = some counted }) (at.next next d)
            (next-IsAt h counted a' (at.next next d) (IsAt-as h a a' refl refl at)))
  ]

  pub begin_block-IsAt :
      (h : Int64) (i : BlockInfo) (a : RigoApp Tree V Db)
      → IsAt h a
      → (begin_block env i a).0 ≡ ok tt
      → IsAt h (begin_block env i a).1
  unfolding begin_block new_block_context
  begin_block-IsAt h i a at e =
      let (last, is, height) = at.last in
      elim (Bool-cases (i.height == add64 last.block_info.height 1)) [
        | inr other ↦ absurd (ground (arith, is, other, e))
        | inl same ↦ record {
          last = (last, ground (arith, is, same), height);
          next = λ c d. ground (arith, is, same, height, d);
        }
      ]

  ended-IsAt :
      (h : Int64) (c : BlockContext) (a : RigoApp Tree V Db)
      (out : Result BlockContext × AppWorld Tree V)
      → ((c' : BlockContext) → out.0 ≡ ok c' → c'.block_info ≡ c.block_info)
      → c.block_info.height ≡ add64 h 1
      → IsAt h a
      → IsAt h (ended env a out).1
  unfolding ended
  ended-IsAt h c a (err x, w) same e at = IsAt-as h a (record a { world = w }) refl refl at
  ended-IsAt h c a (ok c', w) same e at =
      let a' : RigoApp Tree V Db = record a { world = w } in
      next-IsAt h c' a' (ap (λ (i : BlockInfo). i.height) (same c' refl) ∙ e)
        (IsAt-as h a a' refl refl at)

  end_all-info :
      (c c' : BlockContext) (w : AppWorld Tree V)
      → (end_all env c w).0 ≡ ok c'
      → c'.block_info ≡ c.block_info
  unfolding end_all set_val_updates
  end_all-info c c' w e = ground (arith, e)

  pub end_block-IsAt :
      (h : Int64) (a : RigoApp Tree V Db) (next : Option BlockContext)
      → a.next_block_ctx ≡ next
      → IsAt h a
      → IsAt h (end_block env a).1
  unfolding end_block
  end_block-IsAt h a none d at = rw (d, end_block) at
  end_block-IsAt h a (some c) d at =
      rw (d, end_block)
        (ended-IsAt h c a (end_all env c a.world) (λ c'. end_all-info c c' a.world) (at.next c d)
          at)

  kept_block-IsAt :
      (h : Int64) (c : BlockContext) (a : RigoApp Tree V Db) (hash : Bytes)
      (out : Result Versions × AppWorld Tree V)
      → c.block_info.height ≡ h
      → (kept_block env c a out).0 ≡ ok hash
      → IsAt h (kept_block env c a out).1
  unfolding kept_block set_app_hash
  kept_block-IsAt h c a hash (err x, w) e done = absurd cc
  kept_block-IsAt h c a hash (ok v, w) e done = record {
    last = (set_app_hash (env.hash v.hashes) c, refl, e);
    next = λ c' d. absurd cc;
  }

  pub commit-IsAt :
      (h : Int64) (a : RigoApp Tree V Db) (hash : Bytes) (next : Option BlockContext)
      → a.next_block_ctx ≡ next
      → IsAt h a
      → (commit env a).0 ≡ ok hash
      → IsAt (add64 h 1) (commit env a).1
  unfolding commit
  commit-IsAt h a hash none d at e = absurd (ground (arith, d, e))
  commit-IsAt h a hash (some c) d at e =
      let run : commit env a ≡ kept_block env c a (commit_all env a.world) =
        ap
          (λ (n : Option BlockContext). elim n as (λ _. Result Bytes × RigoApp Tree V Db) [
            | none ↦ (err panicked, a)
            | some c ↦ kept_block env c a (commit_all env a.world)
          ])
          d in
      rw run (
        kept_block-IsAt (add64 h 1) c a hash (commit_all env a.world) (at.next c d)
          (ap (λ (x : Result Bytes × RigoApp Tree V Db). x.0) (sym run) ∙ e))

  -- the start of a chain touches neither context
  pub init_chain-contexts :
      (ops : GenesisOps) (req : InitRequest) (a : RigoApp Tree V Db)
      → ((init_chain env ops req a).1.last_block_ctx ≡ a.last_block_ctx)
        × ((init_chain env ops req a).1.next_block_ctx ≡ a.next_block_ctx)
  unfolding init_chain
  init_chain-contexts ops req a = ground arith
