-- ===== src/Tests/Fixture.antt =====
-- A tree that is an association list, items of two numbers, a codec of accounts that keeps them as
-- they are in a byte string, and the sign of a 256-bit number.
use rigo_go.Base.{
  ℕ, zero, suc, ◌^◌, ◌≡◌, Option, none, some, [], ◌∷◌, ◌++◌, arith, refl, ap, sym, ◌∙◌,
  if◌then◌else◌, leb,
}
use rigo_go.Base.Bytes.{Bytes}
use rigo_go.Base.Lists.{length, take, drop}
use rigo_go.Base.Words.{UInt256}
use rigo_go.Base.Result.{Result, ok, err, ordinary}
use rigo_go.Ledger.Map.{Map, lookup, insert, erase, lookup-insert, lookup-erase}
use rigo_go.Ledger.Tree.{TreeOps, TreeLaws}
use rigo_go.Ledger.Simple.{ItemOps}
use rigo_go.Account.Struct.{Sign, negative, positive}
use rigo_go.Account.Codec.{AcctProto, AcctCodec, AcctCodecLaws}

unfoldable pub map_trees : TreeOps (Map Bytes)
unfolding lookup insert erase
map_trees = record {
  get = λ t k. ok (lookup k t);
  set = λ t k v. (ok tt, insert k v t);
  remove = λ t k. (ok tt, erase k t);
  save_version = λ t. (ok ([], 1), t);
  lazy_load_version = λ t n. ok t;
  version = λ t. 1;
  entries = λ t. t;
}

pub map_trees-TreeLaws : TreeLaws map_trees
unfolding map_trees
map_trees-TreeLaws = record {
  get-set = λ t k v j e. ground (arith, lookup-insert j k v t);
  get-remove = λ t k j e. ground (arith, lookup-erase j k t);
  get-save_version = λ t r j e. refl;
}

pub record Pair : Type 0 where
  pub name : ℕ
  pub value : ℕ

abbrev pub decode_pair : Bytes → Result (Pair × Unit {0})
decode_pair (n ∷ v ∷ []) = ok (record { name = n; value = v }, tt)
decode_pair _ = err (ordinary "not a pair")

abbrev pub pairs : ItemOps (Unit {0}) Pair
pairs = record {
  key = λ p. p.name ∷ [];
  encode = λ h p. ok (p.name ∷ p.value ∷ []);
  decode = λ h bz. decode_pair bz;
}

abbrev pub the_sign : UInt256 → Sign
the_sign n = if leb (2 ^ 255) n then negative else positive

-- A part with its length before it, and the rest.
put : Bytes → Bytes → Bytes
put xs ys = length xs ∷ xs ++ ys

get : Bytes → Bytes × Bytes
get [] = ([], [])
get (n ∷ r) = (take n r, drop n r)

take-append : (xs ys : Bytes) → take (length xs) (xs ++ ys) ≡ xs
take-append [] ys = refl
take-append (x ∷ xs) ys = rw (take-append xs ys) refl

drop-append : (xs ys : Bytes) → drop (length xs) (xs ++ ys) ≡ ys
drop-append [] ys = refl
drop-append (x ∷ xs) ys = drop-append xs ys

code_bytes : Option Bytes → Bytes
code_bytes none = 0 ∷ []
code_bytes (some c) = 1 ∷ c

code_of : Bytes → Option Bytes
code_of [] = none
code_of (zero ∷ c) = none
code_of (suc n ∷ c) = some c

code_of-code_bytes : (c : Option Bytes) → code_of (code_bytes c) ≡ c
unfolding code_of code_bytes
code_of-code_bytes none = refl
code_of-code_bytes (some c) = refl

marshal_all : AcctProto → Bytes
unfolding put code_bytes
marshal_all m =
    put m.address (put m.name (put m.x_balance (put (code_bytes m.x_code) (m.nonce ∷ m.doc_url))))

first : Bytes → ℕ
first [] = 0
first (x ∷ xs) = x

rest : Bytes → Bytes
rest [] = []
rest (x ∷ xs) = xs

-- the last three parts
finish : Bytes × Bytes → Bytes × Bytes → Bytes × Bytes → Bytes × Bytes → AcctProto
unfolding code_of first rest
finish (a, _) (n, _) (b, _) (c, r) = record {
  address = a;
  name = n;
  nonce = first r;
  x_balance = b;
  x_code = code_of c;
  doc_url = rest r;
}

unmarshal_all : Bytes → AcctProto
unfolding get finish
unmarshal_all bz =
    let a = get bz in let n = get a.1 in let b = get n.1 in let c = get b.1 in finish a n b c

unmarshal-marshal : (m : AcctProto) → unmarshal_all (marshal_all m) ≡ m
unfolding unmarshal_all marshal_all finish first rest
unmarshal-marshal m =
    let r4 : Bytes = m.nonce ∷ m.doc_url in
    let cb : Bytes = code_bytes m.x_code in
    let r3 : Bytes = put cb r4 in
    let r2 : Bytes = put m.x_balance r3 in
    let r1 : Bytes = put m.name r2 in
    rw
      (
        take-append m.address r1,
        drop-append m.address r1,
        take-append m.name r2,
        drop-append m.name r2,
        take-append m.x_balance r3,
        drop-append m.x_balance r3,
        take-append cb r4,
        drop-append cb r4,
        code_of-code_bytes m.x_code,
      )
      refl

unfoldable pub the_codec : AcctCodec
unfolding marshal_all unmarshal_all first
the_codec = record {
  marshal = λ m. ok (marshal_all m);
  unmarshal = λ bz. ok (unmarshal_all bz);
  to_bytes = λ n. n ∷ [];
  set_bytes = first;
}

read_back :
    (m : AcctProto) (bz : Bytes) → the_codec.marshal m ≡ ok bz → the_codec.unmarshal bz ≡ ok m
unfolding the_codec
read_back m bz e =
    let written : marshal_all m ≡ bz = cc in
    ap (λ (x : Bytes). ok (unmarshal_all x)) (sym written)
    ∙ ap (λ (x : AcctProto). ok x) (unmarshal-marshal m)

pub the_codec-AcctCodecLaws : AcctCodecLaws the_codec
unfolding the_codec first
the_codec-AcctCodecLaws = record {
  unmarshal-marshal = λ m bz code e. read_back m bz e;
  set_bytes-to_bytes = λ n lt. refl;
}
