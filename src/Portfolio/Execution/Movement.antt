-- ===== src/Portfolio/Execution/Movement.antt =====
-- order-execution.service.ts: what a request finds, the tests before the fill, and the cash movement.
use ai_trader_api.Base.{
  ℕ, ⊤, ◌==◌, String, Bool, true, false, ◌&&◌, not, Option, none, some, str_eq, if◌then◌else◌,
}
use ai_trader_api.Base.Action.{Result, ok, Action, pure, throw, gets, or_throw, ◌>>=◌, ◌>>◌, modify}
use ai_trader_api.Base.Double.{Double}
use ai_trader_api.Portfolio.{
  Exchange, Side, buy, sell, OrderType, limit, rejected, Reason, portfolio_not_found,
  insufficient_cash, insufficient_position, Account, Position, Order, Trade, Db, World,
}

-- The driver calls that run once the cash has moved.
pub data Call : Type 0 where
  write_position create_trade restore_cash save_order : Call

-- What a request finds outside the stores.
pub record Env (N : Type 0) : Type 0 where
  pub quote : String → Exchange → Result Reason N
  pub fails : Call → Bool
  pub now : ℕ
  pub fresh_id : ℕ

pub record Filled (N : Type 0) : Type 0 where
  pub order : Order N
  pub trade : Trade N

-- What the cash movement leaves for the later steps.
pub record Moved (N : Type 0) : Type 0 where
  pub account : Account N
  pub sell_position : Option (Position N)
  pub sell_avg_cost : N
  pub realised_pnl : N

-- Ownership: a caller that passes a user id may only touch that user's orders.
abbrev pub is_stranger : Option String → String → Bool
is_stranger none user = false
is_stranger (some caller) user = not (str_eq caller "") && not (str_eq user caller)

module _ {N : Type 0} (num : Double N) where
  open num use {add, sub, mul, neg, le, truthy}

  -- Whether the market has reached the limit of a LIMIT order; any other order is reachable.
  abbrev pub reaches : Side → N → N → Bool
  reaches buy price bound = le price bound
  reaches sell price bound = le bound price

  abbrev pub within_limit : OrderType → Option N → Side → N → Bool
  within_limit limit (some bound) side price =
      if truthy bound then reaches side price bound else true
  within_limit _ _ side price = true

  unfoldable pub is_reachable : Order N → N → Bool
  is_reachable order price = within_limit order.type order.limit_price order.side price

  -- The `$inc` updates.
  abbrev pub inc_cash : N → Account N → Account N
  inc_cash amount a = record a { cash_balance = add a.cash_balance amount }

  abbrev pub inc_both : N → N → Account N → Account N
  inc_both amount pnl a = record a {
    cash_balance = add a.cash_balance amount;
    realised_pnl = add a.realised_pnl pnl;
  }

  -- The amount that compensation adds to the cash.
  abbrev pub reversal : Side → N → N
  reversal buy cost = cost
  reversal sell cost = neg cost

module _ {N P Q O T : Type 0} (db : Db N P Q O T) where
  open db.num use {of_ℕ, add, sub, mul, div, neg, le, lt, eq}

  abbrev pub Request : Type 0 → Type 0
  Request = Action Reason (World N P Q O T)

  -- `order.save()`.
  abbrev pub save_order_doc : Order N → Request ⊤
  save_order_doc order = modify λ w. record w {
    orders = (db.orders.find_one_and_update (λ o. o.id == order.id) (λ _. order) w.orders).1;
  }

  abbrev pub reject : {A : Type 0} → Order N → Reason → Request A
  reject order reason = do
    save_order_doc (record order { status = rejected; rejection_reason = some reason })
    throw reason

  abbrev pub update_account :
      (Account N → Bool) → (Account N → Account N) → Request (Option (Account N))
  update_account p f w =
      let (found, accounts) = db.accounts.find_one_and_update p f w.accounts in
      (ok found, record w { accounts = accounts })

  -- The debit is one conditional update: the test and the `$inc` are a single operation.
  unfoldable pub buy_cash : Order N → Account N → N → Request (Moved N)
  buy_cash order account cost = do
    debited ←
        update_account (λ a. a.id == account.id && le cost a.cash_balance)
          (inc_cash db.num (neg cost))
    elim debited [
      | none ↦ reject order insufficient_cash
      | some a ↦ pure (record {
        account = a;
        sell_position = none;
        sell_avg_cost = of_ℕ 0;
        realised_pnl = of_ℕ 0;
      })
    ]

  abbrev pub held_by : ℕ → String → Position N → Bool
  held_by portfolio symbol p = p.portfolio_id == portfolio && str_eq p.symbol symbol

  abbrev pub credit : Order N → Account N → N → N → Position N → Request (Moved N)
  credit order account price cost position = do
    let pnl = mul (sub price position.average_cost) order.quantity
    credited ← update_account (λ a. a.id == account.id) (inc_both db.num cost pnl)
    a ← or_throw credited portfolio_not_found
    pure (record {
      account = a;
      sell_position = some position;
      sell_avg_cost = position.average_cost;
      realised_pnl = pnl;
    })

  unfoldable pub sell_cash : Order N → Account N → N → N → Request (Moved N)
  sell_cash order account price cost = do
    found ← gets (λ w. db.positions.find_one (held_by account.id order.symbol) w.positions)
    elim found [
      | none ↦ reject order insufficient_position
      | some position ↦
          if lt position.quantity order.quantity
          then reject order insufficient_position
          else credit order account price cost position
    ]

  unfoldable pub move_cash : Side → Order N → Account N → N → N → Request (Moved N)
  move_cash buy order account price cost = buy_cash order account cost
  move_cash sell order account price cost = sell_cash order account price cost
