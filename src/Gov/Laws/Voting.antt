-- ===== src/Gov/Laws/Voting.antt =====
-- A vote that `GovCtrler.ValidateTrx` of ctrlers/gov/ctrler.go lets through is cast.
use mathlib.Core.Path.{subst}
use rigo_go.Base.{
  ◌^◌, ◌≡◌, ◌<◌, inr, Bool, true, false, Option, none, some, arith, refl, sym, ◌∙◌, ap,
}
use rigo_go.Base.Bytes.{Bytes, =b_iff}
use rigo_go.Base.Lists.{length}
use rigo_go.Base.Words.{Int64}
use rigo_go.Base.Result.{Result, ok, err}
use rigo_go.Base.Store.{Ref, Store, assign}
use rigo_go.Ledger.Map.{lookup, lookup-insert}
use rigo_go.Ledger.MemItems.{MemItems}
use rigo_go.Ledger.Tree.{TreeOps}
use rigo_go.Ledger.Simple.{ItemOps, get_item, read_item, to_ledger_key}
use rigo_go.Account.Heap.{array32}
use rigo_go.Trx.{TrxContext, voting, vote}
use rigo_go.Gov.Proposal.{Int32, Voter, GovProposal, do_vote, is_voter}
use rigo_go.Gov.Laws.Votes.{IsChoiceOf}
use rigo_go.Gov.Laws.Tally.{IsTallied, do_vote-IsTallied}
use rigo_go.Gov.Ctrler.{
  GovCodec, StakeHandler, GovCtrler, proposal_items, get_proposal, check_voting, slt32,
  validate_voting, validate_trx, voting_after, exec_voting, exec_voting_after, execute_trx, voted,
  set_proposal,
}

-- A tallied proposal, in which every voter's choice is an option that there is, or none.
pub record IsSound (prop : GovProposal) : Type 0 where
  pub tallied : IsTallied prop
  pub chosen :
      (addr : Bytes) (v : Voter)
      → lookup addr prop.voters ≡ some v
      → IsChoiceOf (length prop.options) v.choice

array32_lem : (bz : Bytes) → to_ledger_key bz ≡ array32 bz
unfolding to_ledger_key array32
array32_lem bz = ground arith

-- The vote that is checked can be cast, and it leaves the proposal tallied.
check_voting-do_vote :
    (height : Int64) (from : Bytes) (choice : Int32) (prop : GovProposal)
    → choice < 2 ^ 32
    → IsSound prop
    → check_voting height from choice prop ≡ ok tt
    → (prop' : GovProposal) × (do_vote from choice prop ≡ ok prop') × IsTallied prop'
unfolding check_voting is_voter slt32
check_voting-do_vote height from choice prop small sound e = go (lookup from prop.voters) refl
  where
    go :
        (found : Option Voter)
        → lookup from prop.voters ≡ found
        → (prop' : GovProposal) × (do_vote from choice prop ≡ ok prop') × IsTallied prop'
    go none missing = absurd (ground (arith, missing, e))
    go (some v) found =
        let inside : choice < length prop.options =
          ground (arith, found, e, small, sound.tallied.few) in
        do_vote-IsTallied from choice v prop sound.tallied found (sound.chosen from v found)
          (inr inside)

module _ {H T Tree : Type 0} (items : ItemOps H T) (trees : TreeOps Tree) where
  get_item_again :
      (k : Bytes) (t : Tree) (m : MemItems T) (h h' : H) {item : T}
      → (get_item items trees k t m h).0 ≡ ok item
      → let m' = (get_item items trees k t m h).1 in
        get_item items trees k t m' h' ≡ (ok item, m', h')
  unfolding get_item read_item
  get_item_again k t m h h' e = grind (arith, lookup-insert, =b_iff)

module _ {Tree : Type 0} (codec : GovCodec) (trees : TreeOps Tree) where
  get_proposal_again :
      (k : Bytes) (exec : Bool) (s : GovCtrler Tree) (r : Ref)
      → (get_proposal codec trees k exec s).0 ≡ ok r
      → let s' = (get_proposal codec trees k exec s).1 in
        get_proposal codec trees k exec s' ≡ (ok r, s')
  unfolding get_proposal
  get_proposal_again k true s r e =
      let m = s.proposal_ledger.finality_items in
      let again =
        get_item_again (proposal_items codec) trees k s.proposal_ledger.tree m s.heap
          (get_item (proposal_items codec) trees k s.proposal_ledger.tree m s.heap).2 e in
      ap
        (λ (x : Result Ref × MemItems Ref × Store GovProposal). (
          x.0,
          record s {
            proposal_ledger = record s.proposal_ledger { finality_items = x.1 };
            heap = x.2;
          },
        ))
        again
  get_proposal_again k false s r e =
      let m = s.proposal_ledger.cached_items in
      let again =
        get_item_again (proposal_items codec) trees k s.proposal_ledger.tree m s.heap
          (get_item (proposal_items codec) trees k s.proposal_ledger.tree m s.heap).2 e in
      ap
        (λ (x : Result Ref × MemItems Ref × Store GovProposal). (
          x.0,
          record s {
            proposal_ledger = record s.proposal_ledger {
              simple = record s.proposal_ledger.simple { cached_items = x.1 };
            };
            heap = x.2;
          },
        ))
        again

  pub set_proposal-heap :
      (r : Ref) (exec : Bool) (s : GovCtrler Tree)
      → (set_proposal codec trees r exec s).heap ≡ s.heap
  unfolding set_proposal
  set_proposal-heap r true s = refl
  set_proposal-heap r false s = refl

  voted-cell :
      (exec : Bool) (r : Ref) (s : GovCtrler Tree) (prop : GovProposal)
      → (voted codec trees exec r s (ok prop)).1.heap.cell r.id ≡ prop
  unfolding voted assign
  voted-cell exec r s prop =
      let kept = set_proposal-heap r exec (record s { heap = assign r.id prop s.heap }) in
      ap (λ (h : Store GovProposal). h.cell r.id) kept ∙ ground arith

  -- the proposal that a vote leaves
  abbrev pub IsCast : Ref → Result (Unit {0}) × GovCtrler Tree → Type 0
  IsCast r (res, s) = (res ≡ ok tt) × IsTallied (s.heap.cell r.id)

  IsCast-as :
      (exec : Bool) (r : Ref) (s : GovCtrler Tree) (prop : GovProposal) {res : Result GovProposal}
      → ok prop ≡ res
      → IsTallied prop
      → IsCast r (voted codec trees exec r s res)
  unfolding voted
  IsCast-as exec r s prop e tallied =
      subst (λ x. IsCast r (voted codec trees exec r s x)) e
        (refl, subst (λ x. IsTallied x) (sym (voted-cell exec r s prop)) tallied)

  -- the vote in the proposal that was found
  voting_after-exec :
      (ctx : TrxContext) (choice : Int32) (r : Ref) (s : GovCtrler Tree)
      → choice < 2 ^ 32
      → IsSound (s.heap.cell r.id)
      → (voting_after codec trees ctx choice (ok r, s)).0 ≡ ok tt
      → IsCast r (exec_voting_after codec trees ctx choice (ok r, s))
  unfolding voting_after exec_voting_after
  voting_after-exec ctx choice r s small sound e =
      let (prop', cast, tallied) =
        check_voting-do_vote ctx.height ctx.tx.from choice (s.heap.cell r.id) small sound e in
      IsCast-as ctx.exec r s prop' (sym cast) tallied

  -- the proposal that a transaction votes on
  abbrev pub voted_on : TrxContext → Bytes → GovCtrler Tree → Result Ref × GovCtrler Tree
  voted_on ctx tx_hash s = get_proposal codec trees (array32 tx_hash) ctx.exec s

  -- the votes in the transactions of both handlers
  validate_vote_lem :
      (stake : StakeHandler) (ctx : TrxContext) (s : GovCtrler Tree) (tx_hash : Bytes)
      (choice : Int32)
      → ctx.tx.type ≡ voting
      → ctx.tx.payload ≡ some (vote tx_hash choice)
      → (validate_trx codec trees stake ctx s).0 ≡ ok tt
      → validate_trx codec trees stake ctx s
        ≡ voting_after codec trees ctx choice
            (get_proposal codec trees (array32 tx_hash) ctx.exec s)
  unfolding validate_trx validate_voting
  validate_vote_lem stake ctx s tx_hash choice is_vote has_payload e =
      ground (arith, is_vote, has_payload, e)

  execute_vote_lem :
      (stake : StakeHandler) (ctx : TrxContext) (s : GovCtrler Tree) (tx_hash : Bytes)
      (choice : Int32)
      → ctx.tx.type ≡ voting
      → ctx.tx.payload ≡ some (vote tx_hash choice)
      → execute_trx codec trees stake ctx s
        ≡ exec_voting_after codec trees ctx choice
            (get_proposal codec trees (array32 tx_hash) ctx.exec s)
  unfolding execute_trx exec_voting
  execute_vote_lem stake ctx s tx_hash choice is_vote has_payload =
      let same = array32_lem tx_hash in rw (is_vote, has_payload, same) refl

  -- the two handlers one after the other, on what the look for the proposal gives
  vote_found :
      (ctx : TrxContext) (choice : Int32) (found : Result Ref × GovCtrler Tree)
      → choice < 2 ^ 32
      → ((r : Ref) → found.0 ≡ ok r → IsSound (found.1.heap.cell r.id))
      → (voting_after codec trees ctx choice found).0 ≡ ok tt
      → (r : Ref) × (found.0 ≡ ok r)
        × ((voting_after codec trees ctx choice found).1 ≡ found.1)
        × IsCast r (exec_voting_after codec trees ctx choice (ok r, found.1))
  unfolding voting_after
  vote_found ctx choice (err x, s) small sound e = cc
  vote_found ctx choice (ok r, s) small sound e =
      (r, refl, refl, voting_after-exec ctx choice r s small (sound r refl) e)

  -- A vote that is validated, on a proposal that is tallied and in which every voter's choice is an
  -- option that there is or none, is executed without an error, and leaves the proposal tallied.
  pub execute_trx-validate_trx :
      (stake : StakeHandler) (ctx : TrxContext) (s : GovCtrler Tree) (tx_hash : Bytes)
      (choice : Int32)
      → ctx.tx.type ≡ voting
      → ctx.tx.payload ≡ some (vote tx_hash choice)
      → choice < 2 ^ 32
      → ((r : Ref)
          → (voted_on ctx tx_hash s).0 ≡ ok r
          → IsSound ((voted_on ctx tx_hash s).1.heap.cell r.id))
      → (validate_trx codec trees stake ctx s).0 ≡ ok tt
      → (r : Ref) × ((voted_on ctx tx_hash s).0 ≡ ok r)
        × IsCast r (execute_trx codec trees stake ctx (validate_trx codec trees stake ctx s).1)
  execute_trx-validate_trx stake ctx s tx_hash choice is_vote has_payload small sound e =
      let found = voted_on ctx tx_hash s in
      let validated = validate_vote_lem stake ctx s tx_hash choice is_vote has_payload e in
      let (r, at, same, cast) =
        vote_found ctx choice found small sound
          (sym (ap (λ (x : Result (Unit {0}) × GovCtrler Tree). x.0) validated) ∙ e) in
      let left : (validate_trx codec trees stake ctx s).1 ≡ found.1 =
        ap (λ (x : Result (Unit {0}) × GovCtrler Tree). x.1) validated ∙ same in
      let again : get_proposal codec trees (array32 tx_hash) ctx.exec found.1 ≡ (ok r, found.1) =
        get_proposal_again (array32 tx_hash) ctx.exec s r at in
      let run : execute_trx codec trees stake ctx (validate_trx codec trees stake ctx s).1
          ≡ exec_voting_after codec trees ctx choice (ok r, found.1) =
        ap (λ (x : GovCtrler Tree). execute_trx codec trees stake ctx x) left
        ∙ execute_vote_lem stake ctx found.1 tx_hash choice is_vote has_payload
        ∙ ap (λ (x : Result Ref × GovCtrler Tree). exec_voting_after codec trees ctx choice x)
            again in
      (r, at, subst (λ x. IsCast r x) (sym run) cast)
