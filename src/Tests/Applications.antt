-- ===== src/Tests/Applications.antt =====
-- The theorems on the application at a small chain.
use rigo_go.Base.{
  ℕ, ◌+◌, ◌%◌, ◌^◌, ◌≡◌, ◌≢◌, ◌<◌, true, false, Option, none, some, List, [], ◌∷◌, ◌++◌, refl,
  arith,
}
use rigo_go.Base.Bytes.{Bytes, =b_refl, =b_sym}
use rigo_go.Base.Lists.{replicate}
use rigo_go.Base.Words.{add64}
use rigo_go.Base.Result.{Result, ok, err, ordinary}
use rigo_go.Ledger.Map.{Map, lookup, insert, lookup-insert}
use rigo_go.Ledger.Finality.{opened}
use rigo_go.Account.Laws.Moves.{total}
use rigo_go.Gov.Params.{default_gov_params}
use rigo_go.Trx.{Trx}
use rigo_go.Node.Executor.{Handlers}
use rigo_go.Node.Evm.{evm_handler}
use rigo_go.Node.BlockContext.{BlockInfo, BlockContext, BlockJson, BlockCodec, BlockCodecLaws}
use rigo_go.Node.MetaDb.{DbOps}
use rigo_go.Node.App.{Ctrlers, Vm, Env, RigoApp, handlers_of, gov_handler, stake_handler}
use rigo_go.Node.App.Delivering.{done, check_tx, delivered}
use rigo_go.Node.App.Blocks.{end_block}
use rigo_go.Node.App.Committing.{commit, info}
use rigo_go.Node.Laws.Transfer.{transfer_to}
use rigo_go.Node.Laws.Deliveries.{delivered-conserves}
use rigo_go.Node.Laws.Heights.{IsAt}
use rigo_go.Node.Laws.Lives.{Life, start, then_call, ending, committing, Life-IsAt}
use rigo_go.Node.Laws.Isolation.{world_block}
use rigo_go.Stake.Delegatee.{Delegatee}
use rigo_go.Gov.Proposal.{GovProposal}
use rigo_go.Node.Laws.Pooled.{AreDelegatees, AreProposals}
use rigo_go.Node.Laws.Objects.{AreOutside}
use rigo_go.Node.Laws.Mempool.{check_tx-block}
use rigo_go.Account.Struct.{Account}
use rigo_go.Node.Laws.Restart.{DbLaws, restarted, info-commit}
use rigo_go.Tests.Fixture.{map_trees, the_codec, the_sign}
use rigo_go.Tests.Executions
use rigo_go.Tests.Governors
use rigo_go.Tests.Proposals
use rigo_go.Tests.Stakers

-- a codec of contexts without a proposer, votes or evidences
abbrev marshal : BlockJson → Result Bytes
marshal j = elim j.block_info.proposer [
  | some p ↦ err (ordinary "proposer")
  | none ↦ elim j.block_info.votes [
    | v ∷ vs ↦ err (ordinary "votes")
    | [] ↦ elim j.block_info.byzantines [
      | e ∷ es ↦ err (ordinary "evidences")
      | [] ↦ ok (j.block_info.height ∷ j.fee_sum ∷ j.txs_cnt ∷ j.app_hash)
    ]
  ]
]

abbrev info_at : ℕ → BlockInfo
info_at height = record { height = height; proposer = none; votes = []; byzantines = [] }

abbrev unmarshal : Bytes → Result BlockJson
unmarshal (height ∷ fee_sum ∷ txs_cnt ∷ app_hash) = ok (record {
  block_info = info_at height;
  fee_sum = fee_sum;
  txs_cnt = txs_cnt;
  app_hash = app_hash;
})
unmarshal _ = err (ordinary "no context")

abbrev block_codec : BlockCodec
block_codec = record { marshal = marshal; unmarshal = unmarshal }

block_codec-BlockCodecLaws : BlockCodecLaws block_codec
block_codec-BlockCodecLaws = record { unmarshal-marshal = λ j bz e. ground (arith, e) }

-- a database that is an association list
unfoldable map_db : DbOps (Map Bytes)
unfolding lookup insert
map_db = record { get = λ k d. ok (lookup k d); set_sync = λ k v d. ok (insert k v d) }

map_db-DbLaws : DbLaws map_db
unfolding map_db
map_db-DbLaws = record {
  get-set_sync = λ k v d d' e. ground (arith, e, lookup-insert k k v d, =b_refl k);
  get-set_other = λ j k v d d' other e. ground (arith, e, other, lookup-insert j k v d, =b_sym j k);
}

abbrev vm : Vm (Map Bytes) (Unit {0})
vm = record {
  evm = record {
    intrinsic_gas = λ input new height. ok 21000;
    run = λ ctx w. record { result = ok tt; ctx = ctx; world = w };
  };
  begin_block = λ c w. (ok tt, w);
  end_block = λ c w. (ok tt, w);
  commit = λ w. (ok ([], 1), w);
}

-- anything but the empty bytes is the transfer of Tests/Executions
abbrev decode : Bytes → Result Trx
decode [] = err (ordinary "no transaction")
decode _ = ok Executions.context.tx

abbrev env : Env (Map Bytes) (Unit {0}) (Map Bytes)
env = record {
  acct_codec = the_codec;
  stake_codec = Stakers.codec;
  gov_codec = Governors.codec;
  block_codec = block_codec;
  trees = map_trees;
  db = map_db;
  vm = vm;
  sign = the_sign;
  decode_trx = decode;
  hash_trx = λ bz. bz;
  verify_trx = λ tx. ok [];
  hash = λ bz. bz;
}

-- the gas price of the transfer of Tests/Executions
abbrev ctrlers : Ctrlers (Map Bytes) (Unit {0})
ctrlers = record {
  gov = record {
    gov_params = record default_gov_params { gas_price = some 2; min_trx_gas = 2 };
    new_gov_params = none;
    params_ledger = opened [];
    proposal_ledger = opened [];
    frozen_ledger = opened [];
    heap = record { cell = λ i. Proposals.proposal; next = 1 };
  };
  stake = record {
    all_delegatees = [];
    last_validators = [];
    delegatee_ledger = opened [];
    frozen_ledger = opened [];
    reward_ledger = opened [];
    stake_limiter = Stakers.limiter;
    last_rwd_hash = [];
    heap = record { cell = λ i. Stakers.delegatee; next = 1 };
  };
  vm = tt;
}

abbrev block_at : ℕ → BlockContext
block_at height = record {
  block_info = info_at height;
  fee_sum = 0;
  txs_cnt = 0;
  app_hash = [];
  val_updates = [];
}

-- block 7 is the last one, and block 8 is being executed
abbrev app : RigoApp (Map Bytes) (Unit {0}) (Map Bytes)
app = record {
  last_block_ctx = some (block_at 7);
  next_block_ctx = some (block_at 8);
  meta_db = record { db = []; cache = [] };
  world = record {
    accts = record { acct_ledger = opened []; heap = record { cell = Executions.cells; next = 2 } };
    rest = ctrlers;
  };
}

app-IsAt : IsAt 7 app
unfolding add64
app-IsAt = record { last = (block_at 7, refl, refl); next = λ c e. ground (arith, e) }

abbrev ended : RigoApp (Map Bytes) (Unit {0}) (Map Bytes)
ended = (end_block env app).1

-- block 8 ends and is committed
one_block : Life env 1 app (commit env ended).1
unfolding end_block commit map_trees rigo_go.Ledger.Map.keys
one_block = then_call (then_call (start app) (ending [] app refl)) (committing [] ended refl)

Life-IsAt_example : IsAt 8 (commit env ended).1
Life-IsAt_example = Life-IsAt env 7 (omega arith) app-IsAt one_block

info-commit_example : (info env (restarted env (commit env app).1)).0 ≡ ok (8, [])
unfolding commit map_db rigo_go.Base.Sort.sort rigo_go.Ledger.Map.keys map_trees
info-commit_example =
    info-commit env (block_at 8) app [] map_db-DbLaws block_codec-BlockCodecLaws
      (λ h. (8 ∷ 0 ∷ 0 ∷ h, refl)) (λ k v d. (insert k v d, refl)) refl refl

abbrev handlers : Handlers (Map Bytes) (Ctrlers (Map Bytes) (Unit {0}))
handlers = record {
  gov = gov_handler env;
  stake = stake_handler env;
  evm = evm_handler vm.evm;
  gas_price = 2;
  min_trx_fee = 4;
  verify_trx = env.verify_trx;
}

delivered-conserves_example :
    let c = transfer_to Executions.receiver Executions.context in
    let out = delivered env (ok c) (block_at 8) app in
    (wanted : ℕ) × (next' : BlockContext) × (out.0 ≡ ok (done wanted 5))
    × (out.1.next_block_ctx ≡ some next')
    × (total 2 out.1.world.accts.heap + next'.fee_sum ≡ 150)
unfolding total handlers_of rigo_go.Node.Executor.validate_trx
delivered-conserves_example =
    delivered-conserves env handlers Executions.context (block_at 8) app Executions.receiver 2
      Executions.sign_law refl (omega arith) refl Executions.apart (omega arith) (omega arith)
      (omega arith) (omega arith) (omega arith) refl

-- the first account was read by the block, and both are in use
abbrev in_block : RigoApp (Map Bytes) (Unit {0}) (Map Bytes)
in_block = record app {
  world = record app.world {
    accts = record app.world.accts {
      acct_ledger = record (opened []) {
        finality_items = record {
          got_items =
              (replicate 20 1 ++ replicate 12 0, record { addr = replicate 20 1; id = 0 }) ∷ [];
          updated_items = [];
          removed_keys = [];
        };
      };
    };
  };
}

abbrev objects : List (ℕ × Account)
objects = (0, Executions.cells 0) ∷ (1, Executions.cells 1) ∷ []

abbrev delegatees : List (ℕ × Delegatee)
delegatees = (0, Stakers.delegatee) ∷ []

abbrev proposals : List (ℕ × GovProposal)
proposals = (0, Proposals.proposal) ∷ []

check_tx-block_example :
    let app' = (check_tx env true (1 ∷ []) in_block).1 in
    (world_block app'.world ≡ world_block in_block.world)
    × AreOutside objects app'.world.accts
    × AreDelegatees delegatees app'.world.rest.stake
    × AreProposals proposals app'.world.rest.gov
    × (app'.last_block_ctx ≡ some (block_at 7))
    × (app'.next_block_ctx ≡ some (block_at 8))
unfolding rigo_go.Account.Laws.Objects.holds rigo_go.Ledger.Laws.Objects.holds
check_tx-block_example =
    check_tx-block env objects delegatees proposals true (1 ∷ []) in_block
      ((omega arith, refl, refl), ((omega arith, refl, refl), tt)) ((omega arith, refl, refl), tt)
      ((omega arith, refl, refl), tt)
