-- ===== src/Trx.antt =====
-- Transactions and their contexts: ctrlers/types/trx.go, trx_ctx.go and the payloads of
-- ctrlers/types/trx_*.go. The handlers of a context are arguments of the functions that call them.
use rigo_go.Base.{ℕ, Bool, Option, List}
use rigo_go.Base.Bytes.{Bytes}
use rigo_go.Base.Words.{Int64, UInt256}
use rigo_go.Account.Heap.{AcctRef}

-- `TRX_TRANSFER` and the constants after it; any other int32 is `unknown`.
pub data TrxType : Type 0 where
  transfer staking unstaking proposal voting contract setdoc withdraw unknown : TrxType

pub data TrxPayload : Type 0 where
  asset_transfer stake_in : TrxPayload
  stake_out : Option Bytes → TrxPayload
  withdraw_reward : UInt256 → TrxPayload
  propose : Bytes → Int64 → Int64 → Int64 → ℕ → List Bytes → TrxPayload
  vote : Bytes → ℕ → TrxPayload
  call : Bytes → TrxPayload
  set_doc : Bytes → Bytes → TrxPayload

pub record Trx : Type 0 where
  pub nonce : ℕ
  pub from : Bytes
  pub to : Bytes
  pub amount : UInt256
  pub gas : ℕ
  pub gas_price : UInt256
  pub type : TrxType
  -- nil if the transaction has none
  pub payload : Option TrxPayload

pub record TrxContext : Type 0 where
  pub height : Int64
  pub tx_hash : Bytes
  pub tx : Trx
  pub exec : Bool
  pub sender_pub_key : Bytes
  pub sender : AcctRef
  -- nil if there is none
  pub receiver : Option AcctRef
  pub gas_used : ℕ
