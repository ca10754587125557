-- ===== src/Account/Struct.antt =====
-- `Account` of ctrlers/types/account.go. A method that mutates the account returns the new one.
use rigo_go.Base.{ℕ, Bool, true, false, Option, none, some, [], ltb, ◌==◌, if◌then◌else◌}
use rigo_go.Base.Bytes.{Bytes}
use rigo_go.Base.Words.{UInt256, add256, sub256, add64}
use rigo_go.Base.Result.{Result, ok, err, invalid_nonce, invalid_amount, insufficient_fund}

-- The result of `uint256.Int.Sign` (github.com/holiman/uint256).
pub data Sign : Type 0 where
  negative zero positive : Sign

pub record Account : Type 0 where
  pub address : Bytes
  pub name : Bytes
  pub nonce : ℕ
  pub balance : UInt256
  -- nil, or the code
  pub code : Option Bytes
  pub doc_url : Bytes

unfoldable pub new_account : Bytes → Account
new_account addr = record {
  address = addr;
  name = [];
  nonce = 0;
  balance = 0;
  code = none;
  doc_url = [];
}

unfoldable pub new_account_with_name : Bytes → Bytes → Account
unfolding new_account
new_account_with_name addr name = record (new_account addr) { name = name }

-- The literal of `Clone` names no `DocURL`.
unfoldable pub clone : Account → Account
clone acct = record {
  address = acct.address;
  name = acct.name;
  nonce = acct.nonce;
  balance = acct.balance;
  code = acct.code;
  doc_url = [];
}

unfoldable pub set_name : Bytes → Account → Account
set_name s acct = record acct { name = s }

unfoldable pub set_doc_url : Bytes → Account → Account
set_doc_url s acct = record acct { doc_url = s }

unfoldable pub add_nonce : Account → Account
unfolding add64
add_nonce acct = record acct { nonce = add64 acct.nonce 1 }

unfoldable pub set_nonce : ℕ → Account → Account
set_nonce n acct = record acct { nonce = n }

unfoldable pub check_nonce : ℕ → Account → Result (Unit {0})
check_nonce n acct = if acct.nonce == n then ok tt else err invalid_nonce

unfoldable pub set_balance : UInt256 → Account → Account
set_balance amt acct = record acct { balance = amt }

unfoldable pub check_balance : UInt256 → Account → Result (Unit {0})
check_balance amt acct = if ltb acct.balance amt then err insufficient_fund else ok tt

unfoldable pub set_code : Bytes → Account → Account
set_code c acct = record acct { code = some c }

abbrev pub is_neg : Sign → Bool
is_neg negative = true
is_neg _ = false

-- `sign` is the library's `Sign`, whose text is not part of the repository.
module _ (sign : UInt256 → Sign) where
  unfoldable pub add_balance : UInt256 → Account → Result Account
  unfolding add256
  add_balance amt acct =
      if is_neg (sign amt)
      then err invalid_amount
      else ok (record acct { balance = add256 acct.balance amt })

  unfoldable pub sub_balance : UInt256 → Account → Result Account
  unfolding sub256
  sub_balance amt acct =
      if is_neg (sign amt)
      then err invalid_amount
      else if ltb acct.balance amt
      then err insufficient_fund
      else ok (record acct { balance = sub256 acct.balance amt })
