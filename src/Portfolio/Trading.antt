-- ===== src/Portfolio/Trading.antt =====
-- src/portfolio/paper-trading.service.ts: placing an order under an idempotency key, and the
-- end-of-session square-off. `toUpperCase` is a parameter; the exchange arrives parsed. The price
-- quoted to the gate and the price of the fill are two calls, so each has its own `Env`.
pub mod Idempotency
pub mod SquareOff
pub mod Buying
use ai_trader_api.Base.{
  ℕ, ⊤, ◌==◌, ◌+◌, String, Bool, true, false, ◌&&◌, not, Option, none, some, List, [], ◌∷◌, str_eq,
  if◌then◌else◌, or_else,
}
use ai_trader_api.Base.Action.{Result, ok, err, Action, pure, throw, gets, ◌>>=◌, ◌>>◌}
use ai_trader_api.Base.Collection.{Collection}
use ai_trader_api.Portfolio.{
  Exchange, Side, buy, sell, OrderType, market, limit, Status, pending, executed, Reason,
  duplicate_key, Account, Position, Order, Trade, Db, World, PlaceOrderResult, placement_result,
}
use ai_trader_api.Portfolio.Execution.{Env, Filled, execute_order}
use ai_trader_api.Portfolio.Accounts.{ensure_portfolio, open_positions_across_users}
use ai_trader_api.Portfolio.Risk.{guard_buy_order}

-- `PlaceOrderDto`.
pub record PlaceOrderDto (N : Type 0) : Type 0 where
  pub symbol : String
  pub exchange : Exchange
  pub side : Side
  pub type : Option OrderType
  pub quantity : N
  pub limit_price : Option N
  pub stop_loss : Option N
  pub client_order_id : Option String
  pub decision_turn_id : Option String

-- An entry of `SquareOffResult.details`: the exit price, or the message of the failure.
pub record Detail (N : Type 0) : Type 0 where
  pub user_id : String
  pub symbol : String
  pub quantity : N
  pub exit : Result Reason (Option N)

-- `SquareOffResult`.
pub record SquareOffResult (N : Type 0) : Type 0 where
  pub closed : ℕ
  pub failed : ℕ
  pub details : List (Detail N)

-- The query by user and idempotency key.
abbrev pub keyed : {N : Type 0} → String → String → Order N → Bool
keyed user key o =
    str_eq o.user_id user && elim o.client_order_id [ none ↦ false | some k ↦ str_eq k key ]

-- `if (dto.clientOrderId)`
abbrev pub given_key : Option String → Option String
given_key none = none
given_key (some key) = if str_eq key "" then none else some key

abbrev pub is_executed : Status → Bool
is_executed executed = true
is_executed _ = false

module _ {N P Q O T : Type 0} (db : Db N P Q O T) where
  abbrev Request : Type 0 → Type 0
  Request = Action Reason (World N P Q O T)

  -- The trade of an executed order.
  abbrev pub fill_of : Order N → World N P Q O T → Option (Trade N)
  fill_of order w =
      if is_executed order.status
      then db.trades.find_one (λ t. t.order_id == order.id) w.trades
      else none

  pub find_by_client_order_id : String → String → World N P Q O T → Option (PlaceOrderResult N)
  find_by_client_order_id user key w = elim (db.orders.find_one (keyed user key) w.orders) [
    | none ↦ none
    | some order ↦ some (placement_result order (fill_of order w))
  ]

  -- The order already placed under the request's key, if it has one.
  abbrev pub find_placed : String → Option String → World N P Q O T → Option (PlaceOrderResult N)
  find_placed user none w = none
  find_placed user (some key) w = find_by_client_order_id user key w

  -- `resolveDuplicateKey` of a duplicate-key error, and the rethrow.
  abbrev pub resolve_duplicate_key : String → Option String → Request (PlaceOrderResult N)
  resolve_duplicate_key user key w = elim (find_placed user key w) [
    | none ↦ (err duplicate_key, w)
    | some placed ↦ (ok placed, w)
  ]

  module _ (upper : String → String) (at_gate at_fill : Env N) where
    abbrev pub new_order : String → PlaceOrderDto N → Account N → Order N
    new_order user dto portfolio = record {
      id = at_fill.fresh_id;
      portfolio_id = portfolio.id;
      user_id = user;
      symbol = upper dto.symbol;
      exchange = dto.exchange;
      side = dto.side;
      type = or_else dto.type market;
      quantity = dto.quantity;
      limit_price = dto.limit_price;
      stop_loss = dto.stop_loss;
      status = pending;
      executed_price = none;
      executed_at = none;
      rejection_reason = none;
      client_order_id = dto.client_order_id;
      decision_turn_id = dto.decision_turn_id;
    }

    -- Only a BUY is gated.
    abbrev pub gate : Side → Order N → Request ⊤
    gate buy order = guard_buy_order db at_gate order order.exchange
    gate sell order = pure tt

    -- Only a MARKET order is executed at once.
    abbrev pub run_order : OrderType → Order N → Account N → Request (PlaceOrderResult N)
    run_order market order portfolio = do
      f ← execute_order db at_fill order.id (some portfolio) none
      pure (placement_result f.order (some f.trade))
    run_order limit order portfolio = pure (placement_result order none)

    -- From the write of the order on.
    pub place_new : String → PlaceOrderDto N → Account N → Request (PlaceOrderResult N)
    place_new user dto portfolio w =
        let order = new_order user dto portfolio in
        elim (db.orders.create order w.orders) [
          | none ↦ resolve_duplicate_key user (given_key dto.client_order_id) w
          | some orders ↦
              (gate order.side order >> run_order order.type order portfolio)
                (record w { orders = orders })
        ]

    abbrev pub unless_placed :
        Option (PlaceOrderResult N) → Request (PlaceOrderResult N) → Request (PlaceOrderResult N)
    unless_placed (some placed) request = pure placed
    unless_placed none request = request

    pub place_order : String → PlaceOrderDto N → Request (PlaceOrderResult N)
    place_order user dto = do
      portfolio ← ensure_portfolio db at_fill user dto.exchange none
      placed ← gets (find_placed user (given_key dto.client_order_id))
      unless_placed placed (place_new user dto portfolio)

  abbrev pub exit_order : Env N → Position N → Order N
  exit_order env p = record {
    id = env.fresh_id;
    portfolio_id = p.portfolio_id;
    user_id = p.user_id;
    symbol = p.symbol;
    exchange = p.exchange;
    side = sell;
    type = market;
    quantity = p.quantity;
    limit_price = none;
    stop_loss = none;
    status = pending;
    executed_price = none;
    executed_at = none;
    rejection_reason = none;
    client_order_id = none;
    decision_turn_id = none;
  }

  abbrev pub create_order : Order N → Request (Order N)
  create_order order w = elim (db.orders.create order w.orders) [
    | none ↦ (err duplicate_key, w)
    | some orders ↦ (ok order, record w { orders = orders })
  ]

  -- The `try` block: it answers the exit price.
  pub close_out : Env N → Position N → Request (Option N)
  close_out env p = do
    order ← create_order (exit_order env p)
    f ← execute_order db env order.id none none
    pure f.order.executed_price

  abbrev pub count_exit :
      Position N → Result Reason (Option N) → SquareOffResult N → SquareOffResult N
  count_exit p (ok price) r = record {
    closed = 1 + r.closed;
    failed = r.failed;
    details =
        record { user_id = p.user_id; symbol = p.symbol; quantity = p.quantity; exit = ok price }
        ∷ r.details;
  }
  count_exit p (err e) r = record {
    closed = r.closed;
    failed = 1 + r.failed;
    details =
        record { user_id = p.user_id; symbol = p.symbol; quantity = p.quantity; exit = err e }
        ∷ r.details;
  }

  -- The loop, each position with its own calls; the result is that of the list.
  pub close_each :
      (ℕ → Env N) → ℕ → List (Position N) → World N P Q O T → SquareOffResult N × World N P Q O T
  close_each env i [] w = (record { closed = 0; failed = 0; details = [] }, w)
  close_each env i (p ∷ ps) w =
      let (exit, v) = close_out (env i) p w in
      let (r, u) = close_each env (i + 1) ps v in (count_exit p exit r, u)

  pub square_off_all : (ℕ → Env N) → World N P Q O T → SquareOffResult N × World N P Q O T
  square_off_all env w = close_each env 0 (open_positions_across_users db (env 0) w) w
