-- ===== src/Account/Ctrler.antt =====
-- `AcctCtrler` of ctrlers/account/ctrler.go. Its mutex makes each exported method one step.
-- `Set` and `SetFinality` of a ledger never fail, so what follows an error of them is left out.
use rigo_go.Base.{ℕ, Bool, true, false, Option, none, some, List, [], ◌∷◌, ltb, if◌then◌else◌}
use rigo_go.Base.Bytes.{Bytes}
use rigo_go.Base.Lists.{length}
use rigo_go.Base.Words.{UInt256}
use rigo_go.Base.Result.{
  Result, ok, err, ◌>>=◌, not_found_account, invalid_trx_payload_params, panicked, ◌>>=◌,
}
use rigo_go.Ledger.Tree.{TreeOps}
use rigo_go.Ledger.Simple
use rigo_go.Ledger.Simple.{to_ledger_key}
use rigo_go.Ledger.Finality
use rigo_go.Ledger.Finality.{FinalityLedger, set_finality, get_finality}
use rigo_go.Account.Struct.{
  Account, Sign, positive, new_account, new_account_with_name, set_name, set_doc_url, set_code,
}
use rigo_go.Account.Codec.{AcctCodec}
use rigo_go.Account.Heap.{AcctRef, Heap, move, write, alloc, array32, acct_items, credit}
use rigo_go.Trx.{TrxContext, TrxPayload, transfer, setdoc, set_doc}

abbrev pub max_acct_name : ℕ
max_acct_name = 2048

abbrev pub max_acct_docurl : ℕ
max_acct_docurl = 2048

-- The controller's ledger, and the objects that it shares with the rest of the program.
pub record AcctCtrler (Tree : Type 0) : Type 0 where
  pub acct_ledger : FinalityLedger Tree AcctRef
  pub heap : Heap

-- `genesis.GenesisAssetHolder`
pub record AssetHolder : Type 0 where
  pub address : Bytes
  pub balance : UInt256

module _ {Tree : Type 0} (codec : AcctCodec) (trees : TreeOps Tree) (sign : UInt256 → Sign) where
  abbrev kept : {A : Type 0} → Result A → Option A
  kept (ok a) = some a
  kept (err e) = none

  unfoldable pub find_account : Bytes → Bool → AcctCtrler Tree → Option AcctRef × AcctCtrler Tree
  unfolding get_finality Simple.get to_ledger_key
  find_account addr true s =
      let (r, l, h) =
        get_finality (acct_items codec) trees (to_ledger_key addr) s.acct_ledger s.heap in
      (kept r, record { acct_ledger = l; heap = h })
  find_account addr false s =
      let (r, l, h) =
        Simple.get (acct_items codec) trees (to_ledger_key addr) s.acct_ledger.simple s.heap in
      (kept r, record { acct_ledger = record s.acct_ledger { simple = l }; heap = h })

  unfoldable pub set_account_committable : AcctRef → Bool → AcctCtrler Tree → AcctCtrler Tree
  unfolding set_finality Simple.set
  set_account_committable r true s = record s {
    acct_ledger = set_finality (acct_items codec) trees r s.acct_ledger;
  }
  set_account_committable r false s = record s {
    acct_ledger = record s.acct_ledger {
      simple = Simple.set (acct_items codec) trees r s.acct_ledger.simple;
    };
  }

  -- `new` of an account
  abbrev pub fresh : Account → AcctCtrler Tree → AcctRef × AcctCtrler Tree
  fresh acct s = let (r, h) = alloc acct s.heap in (r, record s { heap = h })

  abbrev mutate : AcctRef → (Account → Account) → AcctCtrler Tree → AcctCtrler Tree
  mutate r f s = record s { heap = write r.id (f (s.heap.cell r.id)) s.heap }

  unfoldable pub find_or_new_account : Bytes → Bool → AcctCtrler Tree → AcctRef × AcctCtrler Tree
  unfolding find_account set_account_committable alloc new_account_with_name
  find_or_new_account addr exec s =
      let (found, s₁) = find_account addr exec s in
      elim found [
        | some r ↦ (r, s₁)
        | none ↦
            let (r, s₂) = fresh (new_account_with_name addr []) s₁ in
            (r, set_account_committable r exec s₂)
      ]

  unfoldable pub read_account : Bytes → AcctCtrler Tree → AcctRef × AcctCtrler Tree
  unfolding Simple.read alloc new_account array32
  read_account addr s =
      elim (Simple.read (acct_items codec) trees (array32 addr) s.acct_ledger.simple s.heap) [
        | ok (r, h) ↦ (r, record s { heap = h })
        | err e ↦ fresh (new_account addr) s
      ]

  -- the receiver's account, made if it is not found, but not yet set
  abbrev pub receiver_of : Bytes → Option AcctRef × AcctCtrler Tree → AcctRef × AcctCtrler Tree
  receiver_of to (some r, s) = (r, s)
  receiver_of to (none, s) = fresh (new_account_with_name to []) s

  -- `Transfer`
  unfoldable pub transfer_by_addr :
      Bytes → Bytes → UInt256 → Bool → AcctCtrler Tree → Result (Unit {0}) × AcctCtrler Tree
  unfolding find_account move set_account_committable alloc new_account_with_name
  transfer_by_addr from to amt exec s =
      let (found, s₁) = find_account from exec s in
      elim found [
        | none ↦ (err not_found_account, s₁)
        | some acct0 ↦
            let (acct1, s₂) = receiver_of to (find_account to exec s₁) in
            let (r, h) = move sign acct0 acct1 amt s₂.heap in
            let s₃ = record s₂ { heap = h } in
            elim r [
              | err e ↦ (err e, s₃)
              | ok _ ↦ (
                ok tt,
                set_account_committable acct1 exec (set_account_committable acct0 exec s₃),
              )
            ]
      ]

  -- a method that finds an account, changes it and sets it
  abbrev change_found :
      Bytes
      → Bool
      → (AcctRef → Heap → Result (Unit {0}) × Heap)
      → AcctCtrler Tree
      → Result (Unit {0}) × AcctCtrler Tree
  change_found addr exec act s =
      let (found, s₁) = find_account addr exec s in
      elim found [
        | none ↦ (err not_found_account, s₁)
        | some r ↦
            let (res, h) = act r s₁.heap in
            let s₂ = record s₁ { heap = h } in
            elim res [ err e ↦ (err e, s₂) | ok _ ↦ (ok tt, set_account_committable r exec s₂) ]
      ]

  abbrev assign : (Account → Account) → AcctRef → Heap → Result (Unit {0}) × Heap
  assign f r h = (ok tt, write r.id (f (h.cell r.id)) h)

  -- `SetCode`
  unfoldable pub set_code_at :
      Bytes → Bytes → Bool → AcctCtrler Tree → Result (Unit {0}) × AcctCtrler Tree
  unfolding find_account set_account_committable write set_code
  set_code_at addr code exec = change_found addr exec (assign (set_code code))

  abbrev documented : Bytes → Bytes → Account → Account
  documented name url acct = set_doc_url url (set_name name acct)

  -- `SetDoc`
  unfoldable pub set_doc_at :
      Bytes → Bytes → Bytes → Bool → AcctCtrler Tree → Result (Unit {0}) × AcctCtrler Tree
  unfolding find_account set_account_committable write set_name set_doc_url
  set_doc_at addr name url exec = change_found addr exec (assign (documented name url))

  unfoldable pub reward :
      Bytes → UInt256 → Bool → AcctCtrler Tree → Result (Unit {0}) × AcctCtrler Tree
  unfolding find_account set_account_committable credit
  reward to amt exec = change_found to exec (credit sign amt)

  -- the payload of a TRX_SETDOC; any other is a failed type assertion
  abbrev doc_payload : Option TrxPayload → Result (Bytes × Bytes)
  doc_payload (some (set_doc name url)) = ok (name, url)
  doc_payload _ = err panicked

  abbrev check_doc : Bytes × Bytes → Result (Unit {0})
  check_doc (name, url) =
      if ltb max_acct_name (length name)
      then err invalid_trx_payload_params
      else if ltb max_acct_docurl (length url)
      then err invalid_trx_payload_params
      else ok tt

  unfoldable pub validate_trx : TrxContext → Result (Unit {0})
  validate_trx ctx = elim ctx.tx.type [
    | setdoc ↦ doc_payload ctx.tx.payload >>= check_doc
    | _ ↦ ok tt
  ]

  -- the receiver of a transfer; nil is dereferenced
  abbrev move_to : AcctRef → Option AcctRef → UInt256 → Heap → Result (Unit {0}) × Heap
  move_to from none amt h = (err panicked, h)
  move_to from (some to) amt h = move sign from to amt h

  abbrev pub execute_on_heap : TrxContext → Heap → Result (Unit {0}) × Heap
  execute_on_heap ctx h = elim ctx.tx.type [
    | transfer ↦ move_to ctx.sender ctx.receiver ctx.tx.amount h
    | setdoc ↦ elim (doc_payload ctx.tx.payload) [
      | ok (name, url) ↦ assign (documented name url) ctx.sender h
      | err e ↦ (err e, h)
    ]
    | _ ↦ (ok tt, h)
  ]

  abbrev pub set_receiver : Option AcctRef → Bool → AcctCtrler Tree → AcctCtrler Tree
  set_receiver none exec s = s
  set_receiver (some r) exec s = set_account_committable r exec s

  -- what follows a change of the objects, `s` being the controller before it
  unfoldable pub execute_after :
      TrxContext → AcctCtrler Tree → Result (Unit {0}) × Heap → Result (Unit {0}) × AcctCtrler Tree
  unfolding set_account_committable
  execute_after ctx s (err e, h) = (err e, record s { heap = h })
  execute_after ctx s (ok _, h) =
      let sender_set = set_account_committable ctx.sender ctx.exec (record s { heap = h }) in
      (ok tt, set_receiver ctx.receiver ctx.exec sender_set)

  unfoldable pub execute_trx : TrxContext → AcctCtrler Tree → Result (Unit {0}) × AcctCtrler Tree
  unfolding move execute_after write set_name set_doc_url
  execute_trx ctx s = execute_after ctx s (execute_on_heap ctx s.heap)

  abbrev is_pos : Sign → Bool
  is_pos positive = true
  is_pos _ = false

  -- the proposer's account, made if it is not found, but not yet set
  abbrev proposer_of : Bytes → Option AcctRef × AcctCtrler Tree → AcctRef × AcctCtrler Tree
  proposer_of addr (some r, s) = (r, s)
  proposer_of addr (none, s) = fresh (new_account addr) s

  -- `EndBlock`: the fees of the block go to its proposer.
  unfoldable pub end_block :
      Option Bytes → UInt256 → AcctCtrler Tree → Result (Unit {0}) × AcctCtrler Tree
  unfolding find_account set_account_committable alloc new_account credit
  end_block none sum_fee s = (ok tt, s)
  end_block (some proposer) sum_fee s =
      if is_pos (sign sum_fee)
      then (let (acct, s₁) = proposer_of proposer (find_account proposer true s) in
          let (r, h) = credit sign sum_fee acct s₁.heap in
          let s₂ = record s₁ { heap = h } in
          elim r [ err e ↦ (err e, s₂) | ok _ ↦ (ok tt, set_account_committable acct true s₂) ])
      else (ok tt, s)

  abbrev holder_account : AssetHolder → Account
  holder_account holder = record (new_account holder.address) { balance = holder.balance }

  unfoldable pub init_ledger : List AssetHolder → AcctCtrler Tree → AcctCtrler Tree
  unfolding set_account_committable alloc new_account
  init_ledger [] s = s
  init_ledger (holder ∷ holders) s =
      let (r, s₁) = fresh (holder_account holder) s in
      init_ledger holders (set_account_committable r true s₁)

  -- `Commit`
  unfoldable pub commit_accounts : AcctCtrler Tree → Result (Bytes × ℕ) × AcctCtrler Tree
  unfolding Finality.commit
  commit_accounts s =
      let (r, l) = Finality.commit (acct_items codec) trees s.acct_ledger s.heap in
      (r, record s { acct_ledger = l })
