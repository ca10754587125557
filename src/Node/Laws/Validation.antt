-- ===== src/Node/Laws/Validation.antt =====
-- What the common validation of node/trx_executor.go promises to what runs after it.
use rigo_go.Base.{ℕ, ◌+◌, ◌-◌, ◌*◌, ◌%◌, ◌^◌, ◌≡◌, ◌≤◌, ◌<◌, false, ltb, arith, ap, sym, ◌∙◌}
use rigo_go.Base.Words.{UInt256, add256, mul256}
use rigo_go.Base.Result.{ok}
use rigo_go.Account.Struct.{Account, Sign, is_neg, check_balance, check_nonce}
use rigo_go.Trx.{Trx, TrxContext}
use rigo_go.Node.Executor.{Handlers, common_validation0, common_validation1}

module _ {Tree W : Type 0} (handlers : Handlers Tree W) (sign : UInt256 → Sign) where
  -- what the first validation has checked
  pub validated0 :
      (ctx ctx' : TrxContext)
      → common_validation0 handlers sign ctx ≡ ok ctx'
      → (is_neg (sign ctx.tx.amount) ≡ false)
        × (ctx.tx.gas < 2 ^ 63)
        × (ctx.tx.gas_price ≡ handlers.gas_price)
        × (ctx'.tx ≡ ctx.tx)
        × (ctx'.sender ≡ ctx.sender)
  unfolding common_validation0
  validated0 ctx ctx' e = (
    ground (arith, e),
    ground (arith, e),
    ground (arith, e),
    ground (arith, e),
    ground (arith, e),
  )

pub mul_bound : (a b m n : ℕ) → a ≤ m → b ≤ n → a * b ≤ m * n
mul_bound a b m n p q = grind arith

-- `common_validation1` compares with the funds as numbers where the fee is in bounds.
funds :
    (tx : Trx) (sender : Account)
    → tx.gas_price * tx.gas + tx.amount < 2 ^ 256
    → common_validation1 tx sender ≡ ok tt
    → (tx.amount + tx.gas_price * tx.gas ≤ sender.balance) × (sender.nonce ≡ tx.nonce)
unfolding common_validation1 check_balance check_nonce add256 mul256
funds tx sender small e =
    let fee : ℕ = tx.gas_price * tx.gas in
    let exact : (fee % 2 ^ 256 + tx.amount) % 2 ^ 256 ≡ fee + tx.amount = omega arith in
    (ground (arith, e, exact), ground (arith, e))

module _ {Tree W : Type 0} (handlers : Handlers Tree W) (sign : UInt256 → Sign) where
  -- When `Sign` is negative from 2^255 on and the gas price of the governance parameters is below
  -- 2^192, a transaction that passes the common validation has a sender with its nonce and with a
  -- balance of no less than its amount and fee together, no sum or product having wrapped around.
  pub common_validation_lem :
      (ctx ctx' : TrxContext) (sender : Account)
      → ((x : UInt256) → is_neg (sign x) ≡ ltb (2 ^ 255 - 1) x)
      → handlers.gas_price < 2 ^ 192
      → common_validation0 handlers sign ctx ≡ ok ctx'
      → common_validation1 ctx'.tx sender ≡ ok tt
      → (ctx.tx.amount + ctx.tx.gas_price * ctx.tx.gas ≤ sender.balance)
        × (sender.nonce ≡ ctx.tx.nonce)
  common_validation_lem ctx ctx' sender is_sign price e0 e1 =
      let (amount, gas, same_price, tx, s) = validated0 handlers sign ctx ctx' e0 in
      let amount' : ctx.tx.amount < 2 ^ 255 = ground (arith, amount, is_sign ctx.tx.amount) in
      let fee =
        mul_bound ctx.tx.gas_price ctx.tx.gas (2 ^ 192 - 1) (2 ^ 63 - 1)
          (omega (arith, price, same_price)) (omega (arith, gas)) in
      let small : ctx.tx.gas_price * ctx.tx.gas + ctx.tx.amount < 2 ^ 256 =
        omega (arith, fee, amount') in
      let e1' : common_validation1 ctx.tx sender ≡ ok tt =
        ap (λ (t : Trx). common_validation1 t sender) (sym tx) ∙ e1 in
      funds ctx.tx sender small e1'
