-- ===== src/Portfolio/Execution/Solvency.antt =====
-- order-execution.service.ts: account balances under `executeOrder` of a BUY, from the order's id on.
use ai_trader_api.Base.{ℕ, ◌≡◌, ◌==◌, String, true, not, Option, none, some}
use ai_trader_api.Base.Action.{
  Result, ok, then_value, or_throw-cases, throw_if-cases, from_result-cases,
}
use ai_trader_api.Base.Collection.{IsLawful}
use ai_trader_api.Portfolio.{
  Account, Order, Reason, Db, World, same_account, buy, order_not_found, not_pending,
  portfolio_not_found, limit_not_reached, is_pending,
}
use ai_trader_api.Portfolio.Execution.{
  Env, Filled, execute_order, fill_at_market, settle, account_for, is_stranger, is_reachable,
}
use ai_trader_api.Portfolio.Execution.Cash.{AllSolvent, buy-AllSolvent}

module _ {N P Q O T : Type 0} (db : Db N P Q O T) (env : Env N)
    (la : IsLawful same_account db.accounts) where
  open db.num use {of_ℕ, add, mul, neg, le}

  -- What is relied on of the arithmetic, and of the prices for an order: no cost is negative.
  pub record IsSound (order : Order N) : Type 0 where
    pub pays : (cost a : N) → le cost a ≡ true → le (of_ℕ 0) (add a (neg cost)) ≡ true
    pub returns :
        (cost a : N)
        → le (of_ℕ 0) cost ≡ true
        → le (of_ℕ 0) a ≡ true
        → le (of_ℕ 0) (add a cost) ≡ true
    pub costs :
        (price : N)
        → env.quote order.symbol order.exchange ≡ ok price
        → le (of_ℕ 0) (mul price order.quantity) ≡ true

  module _ (order : Order N) (is_buy : order.side ≡ buy) (sound : IsSound order)
      (w : World N P Q O T) (h : AllSolvent db env la w) where
    abbrev Keeps : Result Reason (Filled N) × World N P Q O T → Type 0
    Keeps r = AllSolvent db env la r.1

    fill_at_market-AllSolvent :
        (account : Account N) → Keeps (fill_at_market db env order account w)
    unfolding fill_at_market
    fill_at_market-AllSolvent account =
        from_result-cases Keeps _ (env.quote order.symbol order.exchange) w
          (λ price quoted.
            throw_if-cases Keeps (λ _. settle db env order account price)
              (not (is_reachable db.num order price)) limit_not_reached w
              (λ _.
                buy-AllSolvent db env la order is_buy price (sound.pays (mul price order.quantity))
                  (λ a. sound.returns (mul price order.quantity) a (sound.costs price quoted))
                  account w h)
              (λ _. h))
          (λ e _. h)

    account_for-AllSolvent :
        (portfolio : Option (Account N))
        → Keeps (then_value (fill_at_market db env order) (account_for db env order portfolio w))
    account_for-AllSolvent (some account) = fill_at_market-AllSolvent account
    account_for-AllSolvent none =
        or_throw-cases Keeps (fill_at_market db env order)
          (db.accounts.find_one (λ a. a.id == order.portfolio_id) w.accounts) portfolio_not_found w
          (λ account _. fill_at_market-AllSolvent account) (λ _. h)

    -- Executing a stored BUY leaves no account in debt where none was before, whatever the outcome.
    pub execute_buy-AllSolvent :
        (id : ℕ) (portfolio : Option (Account N)) (caller : Option String)
        → db.orders.find_one (λ o. o.id == id) w.orders ≡ some order
        → Keeps (execute_order db env id portfolio caller w)
    unfolding execute_order
    execute_buy-AllSolvent id portfolio caller found = rw (found) (
        throw_if-cases Keeps _ (is_stranger caller order.user_id) order_not_found w
          (λ _.
            throw_if-cases Keeps _ (not (is_pending order.status)) not_pending w
              (λ _. account_for-AllSolvent portfolio) (λ _. h))
          (λ _. h))
