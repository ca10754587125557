-- ===== src/Node/MetaDb.antt =====
-- ctrlers/types/meta_db.go: the application's small database with its cache. The database under it
-- is an argument (`DbOps`).
use rigo_go.Base.{ℕ, ◌+◌, ◌*◌, ◌/◌, ◌%◌, ◌^◌, Option, none, some, [], ◌∷◌}
use rigo_go.Base.Bytes.{Bytes}
use rigo_go.Base.Words.{Int64}
use rigo_go.Base.Result.{Result, ok, err, panicked}
use rigo_go.Ledger.Map.{Map, lookup, insert}
use rigo_go.Node.BlockContext.{BlockContext, BlockCodec, marshal_block, unmarshal_block}

-- `tmdb.DB`; a key that is not there is read as nil.
pub record DbOps (Db : Type 0) : Type 0 where
  pub get : Bytes → Db → Result (Option Bytes)
  pub set_sync : Bytes → Bytes → Db → Result Db

pub record MetaDb (Db : Type 0) : Type 0 where
  pub db : Db
  pub cache : Map Bytes

abbrev pub key_chain_id : Bytes
key_chain_id = 99 ∷ 105 ∷ []

abbrev pub key_block_height : Bytes
key_block_height = 98 ∷ 104 ∷ []

abbrev pub key_block_context : Bytes
key_block_context = 98 ∷ 99 ∷ []

abbrev pub key_block_app_hash : Bytes
key_block_app_hash = 97 ∷ 104 ∷ []

abbrev digit : ℕ → ℕ → ℕ
digit n place = n / place % 256

-- `binary.BigEndian.PutUint64`, and `Uint64`, which panics on fewer than eight bytes
unfoldable pub put_uint64 : ℕ → Bytes
put_uint64 n =
    digit n (2 ^ 56)
    ∷ digit n (2 ^ 48)
    ∷ digit n (2 ^ 40)
    ∷ digit n (2 ^ 32)
    ∷ digit n (2 ^ 24)
    ∷ digit n (2 ^ 16)
    ∷ digit n (2 ^ 8)
    ∷ digit n 1
    ∷ []

unfoldable pub uint64 : Bytes → Result ℕ
uint64 (a ∷ b ∷ c ∷ d ∷ e ∷ f ∷ g ∷ h ∷ _) =
    ok (a * 2 ^ 56 + b * 2 ^ 48 + c * 2 ^ 40 + d * 2 ^ 32 + e * 2 ^ 24 + f * 2 ^ 16 + g * 2 ^ 8 + h)
uint64 _ = err panicked

module _ {Db : Type 0} (ops : DbOps Db) where
  -- `get`: an error of the database is nil
  unfoldable pub get : Bytes → MetaDb Db → Option Bytes × MetaDb Db
  get k m = elim (lookup k m.cache) [
    | some v ↦ (some v, m)
    | none ↦ elim (ops.get k m.db) [
      | err e ↦ (none, m)
      | ok found ↦ elim found [
        | none ↦ (none, m)
        | some v ↦ (some v, record m { cache = insert k v m.cache })
      ]
    ]
  ]

  unfoldable pub put : Bytes → Bytes → MetaDb Db → Result (Unit {0}) × MetaDb Db
  put k v m = elim (ops.set_sync k v m.db) [
    | err e ↦ (err e, m)
    | ok db ↦ (ok tt, record { db = db; cache = insert k v m.cache })
  ]

  unfoldable pub last_block_height : MetaDb Db → Result Int64 × MetaDb Db
  unfolding get uint64
  last_block_height m =
      let (v, m') = get key_block_height m in (elim v [ none ↦ ok 0 | some bz ↦ uint64 bz ], m')

  unfoldable pub put_last_block_height : Int64 → MetaDb Db → Result (Unit {0}) × MetaDb Db
  unfolding put put_uint64
  put_last_block_height h m = put key_block_height (put_uint64 h) m

  unfoldable pub last_block_app_hash : MetaDb Db → Option Bytes × MetaDb Db
  unfolding get
  last_block_app_hash m = get key_block_app_hash m

  -- `ChainID`: the empty text for nil
  unfoldable pub chain_id : MetaDb Db → Bytes × MetaDb Db
  unfolding get
  chain_id m = let (v, m') = get key_chain_id m in (elim v [ none ↦ [] | some id ↦ id ], m')

  unfoldable pub put_chain_id : Bytes → MetaDb Db → Result (Unit {0}) × MetaDb Db
  unfolding put
  put_chain_id id m = put key_chain_id id m

  -- `LastBlockContext`: what cannot be read is nil
  unfoldable pub last_block_context : BlockCodec → MetaDb Db → Option BlockContext × MetaDb Db
  unfolding get unmarshal_block
  last_block_context codec m =
      let (v, m') = get key_block_context m in
      (
        elim v [
          | none ↦ none
          | some bz ↦ elim (unmarshal_block codec bz) [ ok c ↦ some c | err e ↦ none ]
        ],
        m',
      )

  unfoldable pub put_last_block_context :
      BlockCodec → BlockContext → MetaDb Db → Result (Unit {0}) × MetaDb Db
  unfolding put marshal_block
  put_last_block_context codec c m = elim (marshal_block codec c) [
    | err e ↦ (err e, m)
    | ok bz ↦ put key_block_context bz m
  ]
