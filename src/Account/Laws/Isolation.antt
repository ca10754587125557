-- ===== src/Account/Laws/Isolation.antt =====
-- Operations on the accounts outside a block (`exec` is false) do not touch the cache of the block
-- that is being executed (ctrlers/account/ctrler.go).
use rigo_go.Base.{◌≡◌, Bool, true, false, Option, none, some, refl, ◌∙◌, arith}
use rigo_go.Base.Bytes.{Bytes}
use rigo_go.Base.Words.{UInt256}
use rigo_go.Base.Result.{Result, ok, err}
use rigo_go.Ledger.MemItems.{MemItems}
use rigo_go.Ledger.Tree.{TreeOps}
use rigo_go.Account.Struct.{Sign}
use rigo_go.Account.Codec.{AcctCodec}
use rigo_go.Account.Heap.{AcctRef, Heap}
use rigo_go.Account.Ctrler.{
  AcctCtrler, find_account, find_or_new_account, set_account_committable, reward, execute_trx,
  execute_after, execute_on_heap, set_receiver,
}
use rigo_go.Trx.{TrxContext}

-- The cache of the block that is being executed, with the tree that it is written to.
pub record AcctBlock (Tree : Type 0) : Type 0 where
  pub accounts : MemItems AcctRef
  pub tree : Tree

abbrev pub acct_block : {Tree : Type 0} → AcctCtrler Tree → AcctBlock Tree
acct_block s = record { accounts = s.acct_ledger.finality_items; tree = s.acct_ledger.tree }

module _ {Tree : Type 0} (codec : AcctCodec) (trees : TreeOps Tree) (sign : UInt256 → Sign) where
  pub find_account-block :
      (addr : Bytes) (exec : Bool) (s : AcctCtrler Tree)
      → exec ≡ false
      → acct_block (find_account codec trees sign addr exec s).1 ≡ acct_block s
  unfolding find_account
  find_account-block addr true s e = cc
  find_account-block addr false s e = refl

  pub set_account_committable-block :
      (r : AcctRef) (exec : Bool) (s : AcctCtrler Tree)
      → exec ≡ false
      → acct_block (set_account_committable codec trees sign r exec s) ≡ acct_block s
  unfolding set_account_committable
  set_account_committable-block r true s e = cc
  set_account_committable-block r false s e = refl

  pub find_or_new_account-block :
      (addr : Bytes) (exec : Bool) (s : AcctCtrler Tree)
      → exec ≡ false
      → acct_block (find_or_new_account codec trees sign addr exec s).1 ≡ acct_block s
  unfolding find_or_new_account find_account set_account_committable
  find_or_new_account-block addr true s e = cc
  find_or_new_account-block addr false s e = ground arith

  pub reward-block :
      (to : Bytes) (amt : UInt256) (exec : Bool) (s : AcctCtrler Tree)
      → exec ≡ false
      → acct_block (reward codec trees sign to amt exec s).1 ≡ acct_block s
  unfolding reward find_account set_account_committable
  reward-block to amt true s e = cc
  reward-block to amt false s e = ground arith

  set_receiver-block :
      (r : Option AcctRef) (exec : Bool) (s : AcctCtrler Tree)
      → exec ≡ false
      → acct_block (set_receiver codec trees sign r exec s) ≡ acct_block s
  set_receiver-block none exec s e = refl
  set_receiver-block (some r) exec s e = set_account_committable-block r exec s e

  execute_after-block :
      (ctx : TrxContext) (s : AcctCtrler Tree) (out : Result (Unit {0}) × Heap)
      → ctx.exec ≡ false
      → acct_block (execute_after codec trees sign ctx s out).1 ≡ acct_block s
  unfolding execute_after
  execute_after-block ctx s (err x, h) e = refl
  execute_after-block ctx s (ok _, h) e =
      let s' : AcctCtrler Tree = record s { heap = h } in
      set_receiver-block ctx.receiver ctx.exec
        (set_account_committable codec trees sign ctx.sender ctx.exec s') e
      ∙ set_account_committable-block ctx.sender ctx.exec s' e

  pub execute_trx-acct_block :
      (ctx : TrxContext) (s : AcctCtrler Tree)
      → ctx.exec ≡ false
      → acct_block (execute_trx codec trees sign ctx s).1 ≡ acct_block s
  unfolding execute_trx
  execute_trx-acct_block ctx s e =
      execute_after-block ctx s (execute_on_heap codec trees sign ctx s.heap) e
