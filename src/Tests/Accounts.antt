-- ===== src/Tests/Accounts.antt =====
-- The theorems on accounts at two accounts that a tree holds.
use rigo_go.Base.{
  ℕ, ◌+◌, ◌<◌, ◌^◌, ◌≡◌, ◌≢◌, Bool, true, false, Option, none, some, List, [], ◌∷◌, refl, arith,
  zero, suc,
}
use rigo_go.Base.Bytes.{Bytes}
use rigo_go.Base.Result.{ok, err, insufficient_fund}
use rigo_go.Ledger.Map.{Map, lookup, insert, elem}
use rigo_go.Ledger.Simple.{to_ledger_key}
use rigo_go.Ledger.Finality.{opened}
use rigo_go.Account.Struct.{Account, new_account, clone}
use rigo_go.Account.Codec.{encode, decode, encode_account, decode_account}
use rigo_go.Account.Heap.{AcctRef, Heap, move}
use rigo_go.Account.Ctrler.{AcctCtrler, transfer_by_addr}
use rigo_go.Account.Laws.Codec.{decode-encode, decode_account-encode_account}
use rigo_go.Account.Laws.Moves.{total, total-move}
use rigo_go.Account.Laws.Views.{IsOwned}
use rigo_go.Account.Laws.Transfers.{cache, balance_of, view, transfer_by_addr-views}
use rigo_go.Tests.Fixture.{map_trees, the_codec, the_codec-AcctCodecLaws, the_sign}

alice : Bytes
alice = 1 ∷ []

bob : Bytes
bob = 2 ∷ []

-- an account with a name, code and a document
documented : Account
unfolding alice
documented = record {
  address = alice;
  name = 7 ∷ 8 ∷ [];
  nonce = 3;
  balance = 100;
  code = some (9 ∷ []);
  doc_url = 5 ∷ 6 ∷ [];
}

bytes_of : Account → Bytes
unfolding encode the_codec
bytes_of acct = elim (encode the_codec acct) [ ok bz ↦ bz | err e ↦ [] ]

tree : Map Bytes
unfolding documented bytes_of alice bob to_ledger_key insert new_account
tree =
    insert (to_ledger_key alice) (bytes_of documented)
      (insert (to_ledger_key bob) (bytes_of (record (new_account bob) { balance = 40 })) [])

ctrler : AcctCtrler (Map Bytes)
unfolding tree new_account
ctrler = record {
  acct_ledger = opened tree;
  heap = record { cell = λ i. new_account []; next = 0 };
}

ctrler-IsOwned : IsOwned (cache true ctrler.acct_ledger) ctrler.heap
unfolding ctrler elem lookup
ctrler-IsOwned = record {
  kept = λ k. refl;
  keyed = λ k r e. cc;
  bounded = λ k r e. cc;
  apart = λ k j r q e e' same. cc;
}

apart : to_ledger_key alice ≢ to_ledger_key bob
unfolding alice bob to_ledger_key
apart e = cc

shown : balance_of (view the_codec map_trees (to_ledger_key alice) true ctrler) ≡ 100
unfolding ctrler tree documented bytes_of alice lookup map_trees rigo_go.Base.Bytes.◌=b◌ decode
    rigo_go.Account.Heap.array32
shown = refl

word : balance_of (view the_codec map_trees (to_ledger_key alice) true ctrler) < 2 ^ 256
word = omega (arith, shown)

done : (transfer_by_addr the_codec map_trees the_sign alice bob 30 true ctrler).0 ≡ ok tt
unfolding transfer_by_addr ctrler tree elem lookup rigo_go.Ledger.Simple.read_item map_trees
    rigo_go.Base.Bytes.◌=b◌ decode rigo_go.Account.Heap.key
done = refl

transfer_by_addr-views_example :
    balance_of (
      view the_codec map_trees
        (to_ledger_key bob)
        true
        (transfer_by_addr the_codec map_trees the_sign alice bob 30 true ctrler).1)
    ≡ 70
unfolding ctrler tree rigo_go.Base.Bytes.◌=b◌ lookup map_trees decode rigo_go.Account.Heap.array32
transfer_by_addr-views_example =
    transfer_by_addr-views the_codec map_trees the_sign alice bob 30 true ctrler ctrler-IsOwned
      apart word done (to_ledger_key bob)

-- two objects
abbrev holding : ℕ → Account
holding n = record {
  address = n ∷ [];
  name = [];
  nonce = 0;
  balance = n;
  code = none;
  doc_url = [];
}

abbrev balances : ℕ → ℕ
balances zero = 100
balances (suc n) = 50

abbrev objects : Heap
objects = record { cell = λ i. holding (balances i); next = 2 }

abbrev from : AcctRef
from = record { addr = 100 ∷ []; id = 0 }

abbrev to : AcctRef
to = record { addr = 50 ∷ []; id = 1 }

enough : (move the_sign from to 30 objects).0 ≡ ok tt
unfolding move
enough = refl

short : (move the_sign from to 300 objects).0 ≡ err insufficient_fund
unfolding move
short = refl

other : from.id ≢ to.id
other e = cc

total-move_example : total 2 (move the_sign from to 30 objects).1 ≡ total 2 objects
total-move_example =
    total-move the_sign from to 30 objects 2 (omega arith) (omega arith) (omega arith) (omega arith)

code_kept : documented.code ≢ some []
unfolding documented
code_kept e = cc

decode-encode_example : decode the_codec (bytes_of documented) ≡ ok documented
unfolding bytes_of documented
decode-encode_example =
    decode-encode the_codec the_codec-AcctCodecLaws documented (bytes_of documented) (omega arith)
      code_kept refl

short_bytes : Bytes
unfolding encode_account the_codec documented
short_bytes = elim (encode_account the_codec documented) [ ok bz ↦ bz | err e ↦ [] ]

decode_account-encode_account_example : decode_account the_codec short_bytes ≡ ok (clone documented)
unfolding short_bytes documented
decode_account-encode_account_example =
    decode_account-encode_account the_codec the_codec-AcctCodecLaws documented short_bytes
      (omega arith) code_kept refl
