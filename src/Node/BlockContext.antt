-- ===== src/Node/BlockContext.antt =====
-- ctrlers/types/block_ctx.go: what the application keeps of a block while it is executed. The
-- format of its JSON text is an argument. Of the request that begins a block, the height, the
-- proposer, the votes and the evidences are kept, which the controllers read.
use rigo_go.Base.{ℕ, ◌+◌, ◌≡◌, Option, List, []}
use rigo_go.Base.Bytes.{Bytes}
use rigo_go.Base.Words.{Int64, UInt256, add256}
use rigo_go.Base.Result.{Result, ok, err}
use rigo_go.Gov.Ctrler.Blocks.{Evidence}
use rigo_go.Stake.Ctrler.Rewarding.{VoteInfo}
use rigo_go.Stake.Validators.{ValidatorUpdate}

-- `abcitypes.RequestBeginBlock`
pub record BlockInfo : Type 0 where
  pub height : Int64
  -- nil if there is none
  pub proposer : Option Bytes
  pub votes : List VoteInfo
  pub byzantines : List Evidence

pub record BlockContext : Type 0 where
  pub block_info : BlockInfo
  pub fee_sum : UInt256
  pub txs_cnt : ℕ
  -- nil until the commit
  pub app_hash : Bytes
  pub val_updates : List ValidatorUpdate

unfoldable pub new_block_context : BlockInfo → BlockContext
new_block_context info = record {
  block_info = info;
  fee_sum = 0;
  txs_cnt = 0;
  app_hash = [];
  val_updates = [];
}

unfoldable pub add_fee : UInt256 → BlockContext → BlockContext
unfolding add256
add_fee fee c = record c { fee_sum = add256 c.fee_sum fee }

unfoldable pub add_txs_cnt : ℕ → BlockContext → BlockContext
add_txs_cnt n c = record c { txs_cnt = c.txs_cnt + n }

unfoldable pub set_app_hash : Bytes → BlockContext → BlockContext
set_app_hash hash c = record c { app_hash = hash }

unfoldable pub set_val_updates : List ValidatorUpdate → BlockContext → BlockContext
set_val_updates updates c = record c { val_updates = updates }

-- The struct that `MarshalJSON` and `UnmarshalJSON` go through.
pub record BlockJson : Type 0 where
  pub block_info : BlockInfo
  pub fee_sum : UInt256
  pub txs_cnt : ℕ
  pub app_hash : Bytes

-- `encoding/json` on that struct
pub record BlockCodec : Type 0 where
  pub marshal : BlockJson → Result Bytes
  pub unmarshal : Bytes → Result BlockJson

-- A text that was written is read back.
pub record BlockCodecLaws (codec : BlockCodec) : Type 0 where
  pub unmarshal-marshal :
      (j : BlockJson) (bz : Bytes) → codec.marshal j ≡ ok bz → codec.unmarshal bz ≡ ok j

unfoldable pub to_block_json : BlockContext → BlockJson
to_block_json c = record {
  block_info = c.block_info;
  fee_sum = c.fee_sum;
  txs_cnt = c.txs_cnt;
  app_hash = c.app_hash;
}

unfoldable pub marshal_block : BlockCodec → BlockContext → Result Bytes
unfolding to_block_json
marshal_block codec c = codec.marshal (to_block_json c)

-- `UnmarshalJSON` into a new context: the updates of the validators are not stored.
unfoldable pub unmarshal_block : BlockCodec → Bytes → Result BlockContext
unmarshal_block codec bz = elim (codec.unmarshal bz) [
  | err e ↦ err e
  | ok j ↦ ok (record {
    block_info = j.block_info;
    fee_sum = j.fee_sum;
    txs_cnt = j.txs_cnt;
    app_hash = j.app_hash;
    val_updates = [];
  })
]
