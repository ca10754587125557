-- ===== src/Gov/Ctrler/Blocks.antt =====
-- `GovCtrler` of ctrlers/gov/ctrler.go: genesis, the begin and the end of a block, the commit, and
-- the queries. An event is what its attributes show.
use rigo_go.Base.{ℕ, Bool, false, ◌||◌, List, [], ◌∷◌, ◌++◌, if◌then◌else◌}
use rigo_go.Base.Bytes.{Bytes, ◌=b◌}
use rigo_go.Base.Words.{Int64, add64}
use rigo_go.Base.Result.{Result, ok, err, panicked}
use rigo_go.Base.Store.{Ref, Store, assign}
use rigo_go.Ledger.Map.{Map}
use rigo_go.Ledger.Tree.{TreeOps}
use rigo_go.Ledger.Simple.{iterate_read_all_items}
use rigo_go.Ledger.Finality.{get_finality, set_finality}
use rigo_go.Gov.Params.{GovParams}
use rigo_go.Gov.Proposal.{Voter, GovProposal, do_punish}
use rigo_go.Gov.Ctrler.{GovCodec, GovCtrler, proposal_items, params_items, proposal_key}

-- `abcitypes.Evidence` of a validator's misbehaviour
pub record Evidence : Type 0 where
  pub address : Bytes
  pub kind : ℕ
  pub height : Int64

-- "punishment.gov"
pub record Punishment : Type 0 where
  pub byzantine : Bytes
  pub kind : ℕ
  pub height : Int64
  pub slashed : Int64

-- `for _, v := range prop.Voters`, up to the voter of the address
unfoldable pub has_voted_as : Bytes → Map Voter → Bool
has_voted_as addr [] = false
has_voted_as addr ((k, v) ∷ voters) = v.addr =b addr || has_voted_as addr voters

abbrev ends_quoted : Bytes → Bool
ends_quoted bz = bz =b 34 ∷ 34 ∷ 125 ∷ []

-- `strings.HasSuffix(strOpt, "\"\"}")`
unfoldable pub has_suffix : Bytes → Bool
has_suffix [] = false
has_suffix (c ∷ cs) = ends_quoted (c ∷ cs) || has_suffix cs

-- `strings.ReplaceAll(strOpt, "\"\"}", "\"}")`
unfoldable pub replace_all : Bytes → Bytes
replace_all (a ∷ b ∷ c ∷ cs) =
    let rest = replace_all cs in
    let later = replace_all (b ∷ c ∷ cs) in
    if ends_quoted (a ∷ b ∷ c ∷ []) then 34 ∷ 125 ∷ rest else a ∷ later
replace_all cs = cs

-- the hotfix of `applyProposals`
unfoldable pub hotfix : Bytes → Bytes
unfolding has_suffix replace_all
hotfix opt = if has_suffix opt then replace_all opt else opt

module _ {Tree : Type 0} (codec : GovCodec) (trees : TreeOps Tree) where
  -- `InitLedger`, on the parameters of the genesis
  unfoldable pub init_ledger : GovParams → GovCtrler Tree → GovCtrler Tree
  unfolding set_finality
  init_ledger params s = record s {
    gov_params = params;
    params_ledger = set_finality (params_items codec.params) trees params s.params_ledger;
  }

  -- the callback of `doPunish`
  abbrev pub voted_in :
      Bytes
      → Ref
      → List Bytes × Store GovProposal
      → Result (Unit {0}) × List Bytes × Store GovProposal
  voted_in addr r (ks, h) =
      (ok tt, (if has_voted_as addr (h.cell r.id).voters then ks ++ proposal_key r ∷ [] else ks), h)

  -- one round of the second loop of `doPunish`, once the proposal was looked for: nil is
  -- dereferenced, and the error that the address is no voter is passed over
  unfoldable pub punish_after :
      Bytes → Int64 → Result Ref × GovCtrler Tree → Result Int64 × GovCtrler Tree
  unfolding do_punish assign set_finality
  punish_after addr ratio (err e, s) = (err panicked, s)
  punish_after addr ratio (ok r, s) =
      let again = record s {
        proposal_ledger = set_finality (proposal_items codec) trees r s.proposal_ledger;
      } in
      elim (do_punish addr ratio (s.heap.cell r.id)) [
        | err e ↦ elim e [ panicked ↦ (err panicked, s) | _ ↦ (ok 0, again) ]
        | ok (slashed, prop) ↦ (ok slashed, record again { heap = assign r.id prop s.heap })
      ]

  unfoldable pub punish_in : Bytes → Int64 → Bytes → GovCtrler Tree → Result Int64 × GovCtrler Tree
  unfolding get_finality punish_after
  punish_in addr ratio k s =
      let (r, l, h) = get_finality (proposal_items codec) trees k s.proposal_ledger s.heap in
      punish_after addr ratio (r, record s { proposal_ledger = l; heap = h })

  unfoldable pub punish_all :
      Bytes → Int64 → List Bytes → Int64 → GovCtrler Tree → Result Int64 × GovCtrler Tree
  unfolding punish_in add64
  punish_all addr ratio [] sum s = (ok sum, s)
  punish_all addr ratio (k ∷ ks) sum s =
      let (r, s') = punish_in addr ratio k s in
      elim r [ err e ↦ (err e, s') | ok slashed ↦ punish_all addr ratio ks (add64 sum slashed) s' ]

  -- `doPunish`; what the iteration returns is not looked at
  unfoldable pub punish : Bytes → GovCtrler Tree → Result Int64 × GovCtrler Tree
  unfolding iterate_read_all_items has_voted_as punish_all
  punish addr s =
      let (_, ks, h) =
        iterate_read_all_items (proposal_items codec) trees (voted_in addr) s.proposal_ledger.simple
          ([], s.heap) in
      punish_all addr s.gov_params.slash_ratio ks 0 (record s { heap = h })

  abbrev punishment : Evidence → Int64 → Punishment
  punishment evi slashed = record {
    byzantine = evi.address;
    kind = evi.kind;
    height = evi.height;
    slashed = slashed;
  }

  -- `BeginBlock`, on the evidence of the block
  unfoldable pub begin_block :
      List Evidence → GovCtrler Tree → Result (List Punishment) × GovCtrler Tree
  unfolding punish
  begin_block [] s = (ok [], s)
  begin_block (evi ∷ byzantines) s =
      let (r, s₁) = punish evi.address s in
      elim r [
        | err e ↦ elim e [ panicked ↦ (err panicked, s₁) | _ ↦ begin_block byzantines s₁ ]
        | ok slashed ↦
            let (r', s₂) = begin_block byzantines s₁ in
            (elim r' [ ok evts ↦ ok (punishment evi slashed ∷ evts) | err e ↦ err e ], s₂)
      ]
