-- ===== src/Account/Laws/Codec.antt =====
-- What of an account survives its encoding.
use rigo_go.Base.{◌≡◌, ◌≢◌, ◌<◌, ◌^◌, some, [], arith}
use rigo_go.Base.Bytes.{Bytes}
use rigo_go.Base.Result.{ok}
use rigo_go.Account.Struct.{Account, clone}
use rigo_go.Account.Codec.{
  AcctCodec, AcctCodecLaws, to_proto, to_proto_short, encode, decode, encode_account,
  decode_account,
}

module _ (codec : AcctCodec) (laws : AcctCodecLaws codec) where
  -- Over a codec that keeps its laws, an account that was encoded is decoded to itself, every
  -- field included, if its balance is below 2^256 and its code is not an empty byte string that is
  -- not nil.
  pub decode-encode :
      (acct : Account) (bz : Bytes)
      → acct.balance < 2 ^ 256
      → acct.code ≢ some []
      → encode codec acct ≡ ok bz
      → decode codec bz ≡ ok acct
  unfolding encode decode
  decode-encode acct bz word code e = ground (
    arith,
    laws.unmarshal-marshal (to_proto codec acct) bz code,
    laws.set_bytes-to_bytes acct.balance word,
  )

  -- Over a codec that keeps its laws, `DecodeAccount` after `EncodeAccount` gives what `Clone`
  -- gives, every field but the URL of the document, if the balance is below 2^256 and the code is
  -- not an empty byte string that is not nil.
  pub decode_account-encode_account :
      (acct : Account) (bz : Bytes)
      → acct.balance < 2 ^ 256
      → acct.code ≢ some []
      → encode_account codec acct ≡ ok bz
      → decode_account codec bz ≡ ok (clone acct)
  unfolding encode_account decode_account clone
  decode_account-encode_account acct bz word code e = ground (
    arith,
    laws.unmarshal-marshal (to_proto_short codec acct) bz code,
    laws.set_bytes-to_bytes acct.balance word,
  )
