-- ===== src/Account/Codec.antt =====
-- `Account.Encode` and `Account.Decode` of ctrlers/types/account.go, over the generated
-- `AcctProto`, `proto.Marshal` and the byte form of `uint256.Int`, which are not part of the
-- repository's own logic.
use rigo_go.Base.{ℕ, ◌≡◌, ◌≢◌, ◌<◌, ◌^◌, Option, some, []}
use rigo_go.Base.Bytes.{Bytes}
use rigo_go.Base.Words.{UInt256}
use rigo_go.Base.Result.{Result, ok, err, from_error}
use rigo_go.Account.Struct.{Account}

pub record AcctProto : Type 0 where
  pub address : Bytes
  pub name : Bytes
  pub nonce : ℕ
  pub x_balance : Bytes
  pub x_code : Option Bytes
  pub doc_url : Bytes

pub record AcctCodec : Type 0 where
  pub marshal : AcctProto → Result Bytes
  pub unmarshal : Bytes → Result AcctProto
  -- `uint256.Int.Bytes` and `SetBytes`
  pub to_bytes : UInt256 → Bytes
  pub set_bytes : Bytes → UInt256

-- What the libraries document: a message that was marshalled is read back, but that an empty byte
-- field comes back as nil; and a number of 256 bits is read back.
pub record AcctCodecLaws (codec : AcctCodec) : Type 0 where
  pub unmarshal-marshal :
      (m : AcctProto) (bz : Bytes)
      → m.x_code ≢ some []
      → codec.marshal m ≡ ok bz
      → codec.unmarshal bz ≡ ok m
  pub set_bytes-to_bytes : (n : UInt256) → n < 2 ^ 256 → codec.set_bytes (codec.to_bytes n) ≡ n

module _ (codec : AcctCodec) where
  abbrev pub to_proto : Account → AcctProto
  to_proto acct = record {
    address = acct.address;
    name = acct.name;
    nonce = acct.nonce;
    x_balance = codec.to_bytes acct.balance;
    x_code = acct.code;
    doc_url = acct.doc_url;
  }

  abbrev pub of_proto : AcctProto → Account
  of_proto pm = record {
    address = pm.address;
    name = pm.name;
    nonce = pm.nonce;
    balance = codec.set_bytes pm.x_balance;
    code = pm.x_code;
    doc_url = pm.doc_url;
  }

  unfoldable pub encode : Account → Result Bytes
  unfolding from_error
  encode acct = elim (codec.marshal (to_proto acct)) [ ok bz ↦ ok bz | err e ↦ err (from_error e) ]

  unfoldable pub decode : Bytes → Result Account
  unfolding from_error
  decode d = elim (codec.unmarshal d) [ ok pm ↦ ok (of_proto pm) | err e ↦ err (from_error e) ]

  -- `ToProto` and `FromProto` of ctrlers/account/acct_codec.go leave out the document's URL.
  abbrev pub to_proto_short : Account → AcctProto
  to_proto_short acct = record (to_proto acct) { doc_url = [] }

  abbrev pub of_proto_short : AcctProto → Account
  of_proto_short pm = record (of_proto pm) { doc_url = [] }

  unfoldable pub encode_account : Account → Result Bytes
  encode_account acct = codec.marshal (to_proto_short acct)

  unfoldable pub decode_account : Bytes → Result Account
  decode_account bz = elim (codec.unmarshal bz) [ ok pm ↦ ok (of_proto_short pm) | err e ↦ err e ]
