-- ===== src/Node/Laws/Restart.antt =====
-- What a node reports that is started again after a block (`Commit` and `Info` of node/app.go, over
-- ctrlers/types/meta_db.go and block_ctx.go).
use mathlib.Core.Path.{subst}
use rigo_go.Base.{ℕ, ◌^◌, ◌≡◌, ◌<◌, false, Option, none, some, [], refl, sym, ap, ◌∙◌, arith}
use rigo_go.Base.Bytes.{Bytes, ◌=b◌}
use rigo_go.Base.Result.{Result, ok, err, panicked}
use rigo_go.Ledger.Map.{lookup}
use rigo_go.Node.BlockContext.{
  BlockContext, BlockCodec, BlockCodecLaws, to_block_json, marshal_block, unmarshal_block,
  set_app_hash,
}
use rigo_go.Node.MetaDb.{
  DbOps, MetaDb, key_block_context, key_block_height, put, put_uint64, uint64, last_block_context,
  put_last_block_context, put_last_block_height,
}
use rigo_go.Node.App.{AppWorld, Env, RigoApp}
use rigo_go.Node.App.Committing.{Versions, commit, commit_all, kept_block, info}

-- What tm-db documents of its databases: a key that was set is read back, and no other changes.
pub record DbLaws {Db : Type 0} (ops : DbOps Db) : Type 0 where
  pub get-set_sync :
      (k v : Bytes) (d d' : Db) → ops.set_sync k v d ≡ ok d' → ops.get k d' ≡ ok (some v)
  pub get-set_other :
      (j k v : Bytes) (d d' : Db)
      → j =b k ≡ false
      → ops.set_sync k v d ≡ ok d'
      → ops.get j d' ≡ ops.get j d

-- The height that the database keeps as eight bytes is read back.
uint64-put_uint64 : (n : ℕ) → n < 2 ^ 64 → uint64 (put_uint64 n) ≡ ok n
unfolding uint64 put_uint64
uint64-put_uint64 n small = ap (λ (x : ℕ). ok x) (omega arith)

-- A context is read back but for the updates of the validators, which are not stored.
unmarshal_block-marshal_block :
    (codec : BlockCodec) (c : BlockContext) (bz : Bytes)
    → BlockCodecLaws codec
    → marshal_block codec c ≡ ok bz
    → unmarshal_block codec bz ≡ ok (record c { val_updates = [] })
unfolding marshal_block unmarshal_block to_block_json
unmarshal_block-marshal_block codec c bz laws e =
    rw (laws.unmarshal-marshal (to_block_json c) bz e, unmarshal_block) refl

module _ {Tree V Db : Type 0} (env : Env Tree V Db) where
  -- a node that was started again: what is in memory is gone
  abbrev pub restarted : RigoApp Tree V Db → RigoApp Tree V Db
  restarted a = record a {
    last_block_ctx = none;
    next_block_ctx = none;
    meta_db = record a.meta_db { cache = [] };
  }

  -- the database once both entries were put
  stored_lem :
      (c : BlockContext) (bz v : Bytes) (m : MetaDb Db) (d d' : Db)
      → DbLaws env.db
      → BlockCodecLaws env.block_codec
      → marshal_block env.block_codec c ≡ ok bz
      → env.db.set_sync key_block_context bz m.db ≡ ok d
      → env.db.set_sync key_block_height v d ≡ ok d'
      → (last_block_context env.db env.block_codec (record { db = d'; cache = [] })).0
        ≡ some (record c { val_updates = [] })
  unfolding last_block_context lookup ◌=b◌
  stored_lem c bz v m d d' db codec written set set' =
      let there : env.db.get key_block_context d' ≡ ok (some bz) =
        db.get-set_other key_block_context key_block_height v d d' refl set'
        ∙ db.get-set_sync key_block_context bz m.db d set in
      let back = unmarshal_block-marshal_block env.block_codec c bz codec written in
      rw (there, last_block_context) (rw back refl)

  put-db :
      (k v : Bytes) (m : MetaDb Db) (d : Db)
      → env.db.set_sync k v m.db ≡ ok d
      → (put env.db k v m).1.db ≡ d
  unfolding put
  put-db k v m d e = rw (e, put) refl

  put_context-db :
      (c : BlockContext) (bz : Bytes) (m : MetaDb Db) (d : Db)
      → marshal_block env.block_codec c ≡ ok bz
      → env.db.set_sync key_block_context bz m.db ≡ ok d
      → (put_last_block_context env.db env.block_codec c m).1.db ≡ d
  unfolding put_last_block_context
  put_context-db c bz m d written set =
      rw (written, put_last_block_context) (put-db key_block_context bz m d set)

  -- what the commit puts into the database
  kept_block-stored :
      (c : BlockContext) (a : RigoApp Tree V Db) (hash : Bytes)
      (out : Result Versions × AppWorld Tree V)
      → DbLaws env.db
      → BlockCodecLaws env.block_codec
      → ((h : Bytes) → (bz : Bytes) × (marshal_block env.block_codec (set_app_hash h c) ≡ ok bz))
      → ((k v : Bytes) (d : Db) → (d' : Db) × (env.db.set_sync k v d ≡ ok d'))
      → (kept_block env c a out).0 ≡ ok hash
      → (last_block_context env.db env.block_codec (restarted (kept_block env c a out).1).meta_db).0
        ≡ some (record (set_app_hash hash c) { val_updates = [] })
  unfolding kept_block put_last_block_context put_last_block_height put set_app_hash
  kept_block-stored c a hash (err x, w) db codec writes sets e = absurd cc
  kept_block-stored c a hash (ok v, w) db codec writes sets e =
      let c' = set_app_hash (env.hash v.hashes) c in
      let same : env.hash v.hashes ≡ hash = cc in
      let (bz, written) = writes (env.hash v.hashes) in
      let (d, set) = sets key_block_context bz a.meta_db.db in
      let (d', set') = sets key_block_height (put_uint64 v.version) d in
      let m = (put_last_block_context env.db env.block_codec c' a.meta_db).1 in
      let first : m.db ≡ d = put_context-db c' bz a.meta_db d written set in
      let height = put_uint64 v.version in
      let second : (put_last_block_height env.db v.version m).1.db ≡ d' =
        put-db key_block_height height m d'
          (ap (λ (x : Db). env.db.set_sync key_block_height height x) first ∙ set') in
      subst
        (λ (x : Db).
          (last_block_context env.db env.block_codec (record { db = x; cache = [] })).0
          ≡ some (record (set_app_hash hash c) { val_updates = [] }))
        (sym second)
        (rw (← same) (stored_lem c' bz height a.meta_db d d' db codec written set set'))

  -- Once a commit succeeds with an application hash, a node that is started again reports the height
  -- of the block and that hash, when the database keeps what is put into it and fails on nothing, the
  -- block's context can be written as JSON with any hash, and such a text is read back.
  pub info-commit :
      (c : BlockContext) (a : RigoApp Tree V Db) (hash : Bytes)
      → DbLaws env.db
      → BlockCodecLaws env.block_codec
      → ((h : Bytes) → (bz : Bytes) × (marshal_block env.block_codec (set_app_hash h c) ≡ ok bz))
      → ((k v : Bytes) (d : Db) → (d' : Db) × (env.db.set_sync k v d ≡ ok d'))
      → a.next_block_ctx ≡ some c
      → (commit env a).0 ≡ ok hash
      → (info env (restarted (commit env a).1)).0 ≡ ok (c.block_info.height, hash)
  unfolding commit info set_app_hash
  info-commit c a hash db codec writes sets is e =
      let run : commit env a ≡ kept_block env c a (commit_all env a.world) =
        ap
          (λ (n : Option BlockContext). elim n as (λ _. Result Bytes × RigoApp Tree V Db) [
            | none ↦ (err panicked, a)
            | some c ↦ kept_block env c a (commit_all env a.world)
          ])
          is in
      let done = ap (λ (x : Result Bytes × RigoApp Tree V Db). x.0) (sym run) ∙ e in
      let stored = kept_block-stored c a hash (commit_all env a.world) db codec writes sets done in
      rw run (rw (stored, info) refl)
