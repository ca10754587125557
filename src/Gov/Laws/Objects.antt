-- ===== src/Gov/Laws/Objects.antt =====
-- Transactions of governance outside a block (`exec` is false) work on proposal objects of the checks
-- (ctrlers/gov/ctrler.go).
use mathlib.Core.Path.{subst}
use rigo_go.Base.{
  ℕ, sym, inl, inr, ◌⊎◌, Bool-cases, ◌≡◌, ◌==◌, Bool, true, false, Option, none, some, refl, arith,
}
use rigo_go.Base.Bytes.{Bytes, ◌=b◌}
use rigo_go.Base.Result.{Result, ok, err}
use rigo_go.Base.Store.{Ref, Store, assign, allocate}
use rigo_go.Ledger.MemItems.{MemItems}
use rigo_go.Ledger.Tree.{TreeOps}
use rigo_go.Ledger.Simple
use rigo_go.Ledger.Simple.{to_ledger_key}
use rigo_go.Ledger.Laws.Objects.{Apart, IsFound, DecodesAfresh, get_item-IsFound, set_item-Apart}
use rigo_go.Account.Heap.{array32}
use rigo_go.Gov.Proposal.{GovProposal, do_vote}
use rigo_go.Gov.Ctrler.{
  GovCodec, GovCtrler, StakeHandler, proposal_items, zero_address, get_proposal, set_proposal,
  validate_trx, validate_proposing, validate_voting, proposing_after, voting_after, execute_trx,
  exec_proposing, exec_voting, exec_voting_after, voted,
}
use rigo_go.Trx.{TrxContext, TrxType, TrxPayload, proposal, voting, propose, vote}

-- A proposal object in use, which is not one of those of the checks, and what is in it.
abbrev pub IsOutside : {Tree : Type 0} → ℕ → GovProposal → GovCtrler Tree → Type 0
IsOutside i p s = Apart i p s.proposal_ledger.cached_items s.heap

module _ {Tree : Type 0} (codec : GovCodec) (trees : TreeOps Tree) (i : ℕ) (p : GovProposal) where
  proposals-DecodesAfresh : DecodesAfresh (proposal_items codec) i
  unfolding allocate
  proposals-DecodesAfresh h bz x e below = ground (arith, e, below)

  abbrev IsLooked : Result Ref × GovCtrler Tree → Type 0
  IsLooked (ok r, s) = ((r.id == i) ≡ false) × IsOutside i p s
  IsLooked (err e, s) = IsOutside i p s

  looked_lem :
      (s : GovCtrler Tree) (out : Result Ref × MemItems Ref × Store GovProposal)
      → IsFound i p out
      → IsLooked (
        out.0,
        record s {
          proposal_ledger = record s.proposal_ledger {
            simple = record s.proposal_ledger.simple { cached_items = out.1 };
          };
          heap = out.2;
        },
      )
  looked_lem s (ok r, m, h) found = found
  looked_lem s (err e, m, h) found = found

  get_proposal-IsLooked :
      (k : Bytes) (exec : Bool) (s : GovCtrler Tree)
      → exec ≡ false
      → IsOutside i p s
      → IsLooked (get_proposal codec trees k exec s)
  unfolding get_proposal Simple.get
  get_proposal-IsLooked k true s e o = cc
  get_proposal-IsLooked k false s e o = looked_lem s _ (
      get_item-IsFound (proposal_items codec) trees i p k s.proposal_ledger.tree
        s.proposal_ledger.cached_items s.heap proposals-DecodesAfresh o)

  set_proposal-Outside :
      (r : Ref) (exec : Bool) (s : GovCtrler Tree)
      → exec ≡ false
      → (r.id == i) ≡ false
      → IsOutside i p s
      → IsOutside i p (set_proposal codec trees r exec s)
  unfolding set_proposal Simple.set
  set_proposal-Outside r true s e other o = cc
  set_proposal-Outside r false s e other o =
      set_item-Apart (proposal_items codec) trees i p r s.proposal_ledger.cached_items s.heap other
        o

  IsLooked-Outside : (found : Result Ref × GovCtrler Tree) → IsLooked found → IsOutside i p found.1
  IsLooked-Outside (ok r, s) looked = looked.1
  IsLooked-Outside (err e, s) looked = looked

  get_proposal-Outside :
      (k : Bytes) (ctx : TrxContext) (s : GovCtrler Tree)
      → ctx.exec ≡ false
      → IsOutside i p s
      → IsOutside i p (get_proposal codec trees k ctx.exec s).1
  get_proposal-Outside k ctx s e o =
      IsLooked-Outside (get_proposal codec trees k ctx.exec s)
        (get_proposal-IsLooked k ctx.exec s e o)

  -- A validation leaves the state, or what a look for a proposal makes of it.
  abbrev IsValidated : TrxContext → GovCtrler Tree → GovCtrler Tree → Type 0
  IsValidated ctx s s' = (s' ≡ s) ⊎ ((k : Bytes) × (s' ≡ (get_proposal codec trees k ctx.exec s).1))

  validate_voting-IsValidated :
      (ctx : TrxContext) (payload : Option TrxPayload) (s : GovCtrler Tree)
      → ctx.tx.payload ≡ payload
      → IsValidated ctx s (validate_voting codec trees ctx s).1
  unfolding validate_voting voting_after
  validate_voting-IsValidated ctx none s has = inl (ground (arith, has))
  validate_voting-IsValidated ctx (some (vote h c)) s has =
      elim (Bool-cases (ctx.tx.to =b zero_address)) [
        | inl right ↦ inr (array32 h, ground (arith, has, right))
        | inr wrong ↦ inl (ground (arith, wrong))
      ]
  validate_voting-IsValidated ctx (some _) s has = inl (ground (arith, has))

  validate_proposing-IsValidated :
      (stake : StakeHandler) (ctx : TrxContext) (payload : Option TrxPayload) (s : GovCtrler Tree)
      → ctx.tx.payload ≡ payload
      → IsValidated ctx s (validate_proposing codec trees stake ctx s).1
  unfolding validate_proposing proposing_after
  validate_proposing-IsValidated stake ctx none s has = inl (ground (arith, has))
  validate_proposing-IsValidated stake ctx (some (propose m st pe ap ty os)) s has =
      elim (Bool-cases (ctx.tx.to =b zero_address)) [
        | inr wrong ↦ inl (ground (arith, wrong))
        | inl right ↦ elim (Bool-cases (stake.is_validator ctx.tx.from)) [
          | inr other ↦ inl (ground (arith, right, other))
          | inl allowed ↦ inr (array32 ctx.tx_hash, ground (arith, has, right, allowed))
        ]
      ]
  validate_proposing-IsValidated stake ctx (some _) s has = inl (ground (arith, has))

  by_type-IsValidated :
      (stake : StakeHandler) (ctx : TrxContext) (type : TrxType) (s : GovCtrler Tree)
      → ctx.tx.type ≡ type
      → IsValidated ctx s (validate_trx codec trees stake ctx s).1
  unfolding validate_trx
  by_type-IsValidated stake ctx proposal s is =
      rw (is, validate_trx) (validate_proposing-IsValidated stake ctx ctx.tx.payload s refl)
  by_type-IsValidated stake ctx voting s is =
      rw (is, validate_trx) (validate_voting-IsValidated ctx ctx.tx.payload s refl)
  by_type-IsValidated stake ctx _ s is = rw (is, validate_trx) (inl refl)

  validate_trx-IsValidated :
      (stake : StakeHandler) (ctx : TrxContext) (s : GovCtrler Tree)
      → IsValidated ctx s (validate_trx codec trees stake ctx s).1
  validate_trx-IsValidated stake ctx s = by_type-IsValidated stake ctx ctx.tx.type s refl

  pub validate_trx-Outside :
      (stake : StakeHandler) (ctx : TrxContext) (s : GovCtrler Tree)
      → ctx.exec ≡ false
      → IsOutside i p s
      → IsOutside i p (validate_trx codec trees stake ctx s).1
  validate_trx-Outside stake ctx s e o = elim (validate_trx-IsValidated stake ctx s) [
    | inl same ↦ subst (λ x. IsOutside i p x) (sym same) o
    | inr (k, looked) ↦ subst (λ x. IsOutside i p x) (sym looked) (get_proposal-Outside k ctx s e o)
  ]

  voted-Outside :
      (exec : Bool) (r : Ref) (s : GovCtrler Tree) (out : Result GovProposal)
      → exec ≡ false
      → (r.id == i) ≡ false
      → IsOutside i p s
      → IsOutside i p (voted codec trees exec r s out).1
  unfolding voted assign
  voted-Outside exec r s (err x) e other o = o
  voted-Outside exec r s (ok q) e other o =
      let other' : (i == r.id) ≡ false = ground (arith, other) in
      set_proposal-Outside r exec _ e other (o.0, rw other' o.1, o.2)

  exec_voting_after-Outside :
      (ctx : TrxContext) (choice : ℕ) (found : Result Ref × GovCtrler Tree)
      → ctx.exec ≡ false
      → IsLooked found
      → IsOutside i p (exec_voting_after codec trees ctx choice found).1
  unfolding exec_voting_after
  exec_voting_after-Outside ctx choice (err x, s) e looked = looked
  exec_voting_after-Outside ctx choice (ok r, s) e looked =
      voted-Outside ctx.exec r s (do_vote ctx.tx.from choice (s.heap.cell r.id)) e looked.0 looked.1

  exec_voting-Outside :
      (ctx : TrxContext) (payload : Option TrxPayload) (s : GovCtrler Tree)
      → ctx.tx.payload ≡ payload
      → ctx.exec ≡ false
      → IsOutside i p s
      → IsOutside i p (exec_voting codec trees ctx s).1
  unfolding exec_voting
  exec_voting-Outside ctx none s has e o = rw (has, exec_voting) o
  exec_voting-Outside ctx (some (vote tx_hash choice)) s has e o =
      rw (has, exec_voting)
        (exec_voting_after-Outside ctx choice _ e
          (get_proposal-IsLooked (to_ledger_key tx_hash) ctx.exec s e o))
  exec_voting-Outside ctx (some _) s has e o = rw (has, exec_voting) o

  exec_proposing-Outside :
      (stake : StakeHandler) (ctx : TrxContext) (payload : Option TrxPayload) (s : GovCtrler Tree)
      → ctx.tx.payload ≡ payload
      → ctx.exec ≡ false
      → IsOutside i p s
      → IsOutside i p (exec_proposing codec trees stake ctx s).1
  unfolding exec_proposing allocate
  exec_proposing-Outside stake ctx none s has e o = rw (has, exec_proposing) o
  exec_proposing-Outside stake ctx (some (propose m st pe ap ty os)) s has e o =
      let fresh : (s.heap.next == i) ≡ false = ground (arith, o.0) in
      let fresh' : (i == s.heap.next) ≡ false = ground (arith, o.0) in
      rw (has, exec_proposing)
        (set_proposal-Outside _ ctx.exec _ e fresh (omega (arith, o.0), rw fresh' o.1, o.2))
  exec_proposing-Outside stake ctx (some _) s has e o = rw (has, exec_proposing) o

  by_type-Outside :
      (stake : StakeHandler) (ctx : TrxContext) (type : TrxType) (s : GovCtrler Tree)
      → ctx.tx.type ≡ type
      → ctx.exec ≡ false
      → IsOutside i p s
      → IsOutside i p (execute_trx codec trees stake ctx s).1
  unfolding execute_trx
  by_type-Outside stake ctx proposal s is e o =
      rw (is, execute_trx) (exec_proposing-Outside stake ctx ctx.tx.payload s refl e o)
  by_type-Outside stake ctx voting s is e o =
      rw (is, execute_trx) (exec_voting-Outside ctx ctx.tx.payload s refl e o)
  by_type-Outside stake ctx _ s is e o = rw (is, execute_trx) o

  pub execute_trx-Outside :
      (stake : StakeHandler) (ctx : TrxContext) (s : GovCtrler Tree)
      → ctx.exec ≡ false
      → IsOutside i p s
      → IsOutside i p (execute_trx codec trees stake ctx s).1
  execute_trx-Outside stake ctx s e o = by_type-Outside stake ctx ctx.tx.type s refl e o
