-- ===== src/Node/Laws/Lives.antt =====
-- The life of the application of node/app.go between two starts of the node, at each of which the
-- consensus engine asks for `Info` once and before anything else: the calls that follow it as steps
-- between states. It goes on as long as none of them panics.
use rigo_go.Base.{ℕ, ◌+◌, ◌%◌, ◌^◌, ◌≡◌, ◌<◌, Bool, List, refl, arith}
use rigo_go.Base.Bytes.{Bytes}
use rigo_go.Base.Words.{Int64, add64}
use rigo_go.Base.Result.{ok}
use rigo_go.Stake.Validators.{ValidatorUpdate}
use rigo_go.Node.BlockContext.{BlockInfo}
use rigo_go.Node.Laws.Heights.{
  IsAt, IsAt-as, check_tx-contexts, init_chain-contexts, deliver_tx-IsAt, begin_block-IsAt,
  end_block-IsAt, commit-IsAt,
}
use rigo_go.Node.App.{Env, RigoApp}
use rigo_go.Node.App.Delivering.{Response, check_tx, deliver_tx}
use rigo_go.Node.App.Blocks.{begin_block, end_block}
use rigo_go.Node.App.Starting.{GenesisOps, InitRequest, init_chain}
use rigo_go.Node.App.Committing.{commit}

module _ {Tree V Db : Type 0} (env : Env Tree V Db) where
  -- A call but of `Info` that does not panic, with the number of blocks that it completes.
  pub data Step : ℕ → RigoApp Tree V Db → RigoApp Tree V Db → Type 0 where
    begun :
        (i : BlockInfo) (a : RigoApp Tree V Db)
        → (begin_block env i a).0 ≡ ok tt
        → Step 0 a (begin_block env i a).1
    initializing :
        (ops : GenesisOps) (req : InitRequest) (hash : Bytes) (a : RigoApp Tree V Db)
        → (init_chain env ops req a).0 ≡ ok hash
        → Step 0 a (init_chain env ops req a).1
    checking :
        (new : Bool) (bz : Bytes) (r : Response) (a : RigoApp Tree V Db)
        → (check_tx env new bz a).0 ≡ ok r
        → Step 0 a (check_tx env new bz a).1
    delivering :
        (bz : Bytes) (r : Response) (a : RigoApp Tree V Db)
        → (deliver_tx env bz a).0 ≡ ok r
        → Step 0 a (deliver_tx env bz a).1
    ending :
        (updates : List ValidatorUpdate) (a : RigoApp Tree V Db)
        → (end_block env a).0 ≡ ok updates
        → Step 0 a (end_block env a).1
    committing :
        (hash : Bytes) (a : RigoApp Tree V Db)
        → (commit env a).0 ≡ ok hash
        → Step 1 a (commit env a).1

  -- A sequence of calls, with the number of blocks that it completes.
  pub data Life : ℕ → RigoApp Tree V Db → RigoApp Tree V Db → Type 0 where
    start : (a : RigoApp Tree V Db) → Life 0 a a
    then_call : {n m : ℕ} {a b c : RigoApp Tree V Db} → Life n a b → Step m b c → Life (n + m) a c

  same_height : (h : Int64) → h < 2 ^ 64 → (h + 0) % 2 ^ 64 ≡ h
  same_height h small = omega arith

  sum_height : (h n m : ℕ) → (h + (n + m)) % 2 ^ 64 ≡ ((h + n) % 2 ^ 64 + m) % 2 ^ 64
  sum_height h n m = omega arith

  -- A call leaves the height as it is, but a commit, which raises it by one.
  Step-IsAt :
      (h : Int64) {n : ℕ} {a b : RigoApp Tree V Db}
      → h < 2 ^ 64
      → Step n a b
      → IsAt h a
      → IsAt ((h + n) % 2 ^ 64) b
  unfolding add64
  Step-IsAt h small (begun i a e) at = rw (same_height h small) (begin_block-IsAt env h i a at e)
  Step-IsAt h small (initializing ops req hash a e) at =
      let (l, x) = init_chain-contexts env ops req a in
      rw (same_height h small) (IsAt-as h a (init_chain env ops req a).1 l x at)
  Step-IsAt h small (checking new bz r a e) at =
      let (l, x) = check_tx-contexts env new bz a in
      rw (same_height h small) (IsAt-as h a (check_tx env new bz a).1 l x at)
  Step-IsAt h small (delivering bz r a e) at =
      rw (same_height h small) (deliver_tx-IsAt env h bz a a.next_block_ctx refl at)
  Step-IsAt h small (ending updates a e) at =
      rw (same_height h small) (end_block-IsAt env h a a.next_block_ctx refl at)
  Step-IsAt h small (committing hash a e) at = commit-IsAt env h a hash a.next_block_ctx refl at e

  -- From an application whose last block is at a height and whose block, if one is being executed,
  -- is at the next, any sequence of calls of InitChain, CheckTx, BeginBlock, DeliverTx, EndBlock and
  -- Commit that do not panic leads to one of which the same holds, at the height raised by the number
  -- of commits, modulo 2^64. (Info, which sets the last block anew, is not among the calls.)
  pub Life-IsAt :
      (h : Int64) {n : ℕ} {a b : RigoApp Tree V Db}
      → h < 2 ^ 64
      → IsAt h a
      → Life n a b
      → IsAt ((h + n) % 2 ^ 64) b
  Life-IsAt h small at (start a) = rw (same_height h small) at
  Life-IsAt h small at (then_call {n = n} {m = m} life step) =
      rw (sum_height h n m)
        (Step-IsAt ((h + n) % 2 ^ 64) (omega arith) step (Life-IsAt h small at life))
