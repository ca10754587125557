-- ===== src/Account/Heap.antt =====
-- The account objects that the controller, the transaction contexts and the ledger's caches share:
-- a Go pointer to an `Account` is a reference into a heap. The address of an account is never
-- assigned after it was made, so a reference carries it.
use rigo_go.Base.{ℕ, ◌+◌, ◌-◌, ◌==◌, ltb, ◌++◌, if◌then◌else◌}
use rigo_go.Base.Bytes.{Bytes}
use rigo_go.Base.Lists.{length, take, replicate}
use rigo_go.Base.Words.{UInt256}
use rigo_go.Base.Result.{Result, ok, err}
use rigo_go.Ledger.Simple.{ItemOps}
use rigo_go.Account.Struct.{Account, Sign, add_balance, sub_balance}
use rigo_go.Account.Codec.{AcctCodec, encode, decode}

pub record AcctRef : Type 0 where
  pub addr : Bytes
  pub id : ℕ

-- The cells from `next` on are free.
pub record Heap : Type 0 where
  pub cell : ℕ → Account
  pub next : ℕ

unfoldable pub write : ℕ → Account → Heap → Heap
write i acct h = record h { cell = λ j. if j == i then acct else h.cell j }

unfoldable pub alloc : Account → Heap → AcctRef × Heap
alloc acct h = (
  record { addr = acct.address; id = h.next },
  record { cell = λ j. if j == h.next then acct else h.cell j; next = h.next + 1 },
)

-- `HexBytes.Array32` of types/bytes/hex_bytes.go
unfoldable pub array32 : Bytes → Bytes
array32 hb =
    let n = if ltb (length hb) 32 then length hb else 32 in take n hb ++ replicate (32 - n) 0

-- `Account.Key`
unfoldable pub key : AcctRef → Bytes
unfolding array32
key r = array32 r.addr

-- An account as an item of a ledger.
abbrev pub acct_items : AcctCodec → ItemOps Heap AcctRef
acct_items codec = record {
  key = key;
  encode = λ h r. encode codec (h.cell r.id);
  decode = λ h bz. elim (decode codec bz) [ ok acct ↦ ok (alloc acct h) | err e ↦ err e ];
}

module _ (sign : UInt256 → Sign) where
  -- `acct.AddBalance(amt)` and `acct.SubBalance(amt)` through a pointer
  unfoldable pub credit : UInt256 → AcctRef → Heap → Result (Unit {0}) × Heap
  unfolding add_balance write
  credit amt r h = elim (add_balance sign amt (h.cell r.id)) [
    | ok acct ↦ (ok tt, write r.id acct h)
    | err e ↦ (err e, h)
  ]

  unfoldable pub debit : UInt256 → AcctRef → Heap → Result (Unit {0}) × Heap
  unfolding sub_balance write
  debit amt r h = elim (sub_balance sign amt (h.cell r.id)) [
    | ok acct ↦ (ok tt, write r.id acct h)
    | err e ↦ (err e, h)
  ]

  -- `AcctCtrler.transfer` of ctrlers/account/ctrler.go: a refund follows if the receiver cannot be credited.
  unfoldable pub move : AcctRef → AcctRef → UInt256 → Heap → Result (Unit {0}) × Heap
  unfolding credit debit
  move from to amt h =
      let (r, h₁) = debit amt from h in
      elim r [
        | err e ↦ (err e, h₁)
        | ok _ ↦
            let (r', h₂) = credit amt to h₁ in
            elim r' [ ok _ ↦ (ok tt, h₂) | err e ↦ (err e, (credit amt from h₂).1) ]
      ]
