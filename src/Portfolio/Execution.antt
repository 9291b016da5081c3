-- ===== src/Portfolio/Execution.antt =====
-- src/portfolio/order-execution.service.ts: where money moves. The sequence of driver calls is kept;
-- `fails` says which of the calls behind the committed cash movement the driver lets throw (without
-- having written), `quote` is `PortfolioAccountsService.fetchLtp`, and `now` is the clock.
mod Movement
pub mod Accounting
pub mod Fills
pub mod Cash
pub mod Solvency
pub mod Refusals
pub mod Outcomes
pub mod Sales
pub mod Races
mod Tests
use ai_trader_api.Base.{
  ℕ, ⊤, ◌==◌, String, Bool, true, false, ◌&&◌, not, Option, none, some, List, [], ◌∷◌, str_eq,
  if◌then◌else◌, or_else, is_some,
}
use ai_trader_api.Base.Action.{
  Result, ok, err, Action, pure, throw, gets, or_throw, from_result, try_catch, ◌>>=◌, ◌>>◌,
  throw_if, modify,
}
use ai_trader_api.Base.Collection.{Collection}
use ai_trader_api.Base.Double.{Double}
use ai_trader_api.Portfolio.{
  Exchange, Side, buy, sell, OrderType, market, limit, Status, pending, executed, rejected,
  is_pending, Reason, order_not_found, not_pending, portfolio_not_found, limit_not_reached,
  insufficient_cash, insufficient_position, driver_failure, duplicate_key, Account, Position, Order,
  Trade, Event, order_update, positions_update, Db, World, same_position,
}
unfoldable pub use Movement.*

module _ {N P Q O T : Type 0} (db : Db N P Q O T) where
  open db.num use {of_ℕ, add, sub, mul, div, neg, le, lt, eq}

  module _ (env : Env N) where
    -- `position.save()`: it throws `DocumentNotFoundError` where the document is gone.
    abbrev pub save_position : Position N → Request db ⊤
    save_position p w =
        let (saved, positions) =
          db.positions.find_one_and_update (λ q. q.id == p.id) (λ _. p) w.positions in
        elim saved [
          | none ↦ (err driver_failure, record w { positions = positions })
          | some q ↦ (ok tt, record w { positions = positions })
        ]

    -- The position with an order's shares added.
    abbrev pub grown : Order N → N → Position N → Position N
    grown order price p =
        let total_qty = add p.quantity order.quantity in
        let total_cost = add (mul p.average_cost p.quantity) (mul price order.quantity) in
        let average = div total_cost total_qty in
        record p {
          average_cost = average;
          quantity = total_qty;
          current_price = price;
          unrealised_pnl = mul (sub price average) total_qty;
          stop_loss = elim order.stop_loss [ none ↦ p.stop_loss | some s ↦ some s ];
          updated_at = some env.now;
        }

    abbrev pub opened : Order N → N → Account N → Position N
    opened order price account = record {
      id = env.fresh_id;
      portfolio_id = account.id;
      user_id = order.user_id;
      symbol = order.symbol;
      exchange = order.exchange;
      quantity = order.quantity;
      average_cost = price;
      current_price = price;
      unrealised_pnl = of_ℕ 0;
      stop_loss = order.stop_loss;
      updated_at = some env.now;
    }

    abbrev pub create_position : Position N → Request db ⊤
    create_position p w = elim (db.positions.create p w.positions) [
      | none ↦ (err duplicate_key, w)
      | some positions ↦ (ok tt, record w { positions = positions })
    ]

    pub upsert_position : Order N → N → Account N → Request db ⊤
    upsert_position order price account = do
      existing ← gets (λ w. db.positions.find_one (held_by db account.id order.symbol) w.positions)
      throw_if (env.fails write_position) driver_failure
      elim existing [
        | none ↦ create_position (opened order price account)
        | some p ↦ save_position (grown order price p)
      ]

    abbrev pub shrunk : Order N → N → Position N → Position N
    shrunk order price p =
        let left = sub p.quantity order.quantity in
        record p {
          quantity = left;
          current_price = price;
          unrealised_pnl = mul (sub price p.average_cost) left;
          updated_at = some env.now;
        }

    abbrev pub close_position : Position N → Request db ⊤
    close_position p =
        modify
          λ w. record w { positions = (db.positions.delete_one (λ q. q.id == p.id) w.positions).1 }

    pub reduce_position : Order N → N → Position N → Request db ⊤
    reduce_position order price p = do
      throw_if (env.fails write_position) driver_failure
      (if eq (sub p.quantity order.quantity) (of_ℕ 0)
          then close_position p
          else save_position (shrunk order price p))

    abbrev pub trade_pnl : Side → N → N → N → N
    trade_pnl buy price cost quantity = of_ℕ 0
    trade_pnl sell price cost quantity = mul (sub price cost) quantity

    abbrev pub trade_of : Order N → N → N → Trade N
    trade_of order price avg_cost = record {
      portfolio_id = order.portfolio_id;
      order_id = order.id;
      user_id = order.user_id;
      symbol = order.symbol;
      exchange = order.exchange;
      side = order.side;
      quantity = order.quantity;
      price = price;
      realised_pnl = trade_pnl order.side price avg_cost order.quantity;
      executed_at = env.now;
    }

    abbrev pub create_trade_doc : Trade N → Request db (Trade N)
    create_trade_doc t w = elim (db.trades.create t w.trades) [
      | none ↦ (err duplicate_key, w)
      | some trades ↦ (ok t, record w { trades = trades })
    ]

    pub write_position_for : Side → Order N → N → Moved N → Request db ⊤
    write_position_for buy order price moved = upsert_position order price moved.account
    write_position_for sell order price moved = elim moved.sell_position [
      | none ↦ pure tt
      | some p ↦ reduce_position order price p
    ]

    -- The `try` block: the position, then the trade.
    pub book : Order N → N → Moved N → Request db (Trade N)
    book order price moved = do
      write_position_for order.side order price moved
      throw_if (env.fails create_trade) driver_failure
      create_trade_doc (trade_of order price moved.sell_avg_cost)

    -- `compensateCash`: its own failure is logged, not thrown.
    pub compensate_cash : Account N → Side → N → N → Request db ⊤
    compensate_cash account side cost pnl w = if env.fails restore_cash then (ok tt, w) else (
      ok tt,
      (update_account db (λ a. a.id == account.id)
          (inc_both db.num (reversal db.num side cost) (neg pnl)) w).1,
    )

    abbrev pub emit_updates : Order N → Request db ⊤
    emit_updates order = modify λ w. record w {
      events =
          positions_update order.user_id
            (db.positions.find (λ p. str_eq p.user_id order.user_id) w.positions)
          ∷ order_update order.user_id order
          ∷ w.events;
    }

    abbrev pub filled_order : Order N → N → Order N
    filled_order order price = record order {
      status = executed;
      executed_price = some price;
      executed_at = some env.now;
    }

    -- The order is marked executed last, and the updates go out.
    pub finish : Order N → N → Trade N → Request db (Filled N)
    finish order price trade = do
      throw_if (env.fails save_order) driver_failure
      save_order_doc db (filled_order order price)
      emit_updates (filled_order order price)
      pure (record { order = filled_order order price; trade = trade })

    -- The `catch` block.
    pub undo : {A : Type 0} → Order N → N → Moved N → Reason → Request db A
    undo order cost moved e = do
      compensate_cash moved.account order.side cost moved.realised_pnl
      throw e

    -- What follows the cash movement.
    pub after_move : Order N → N → N → Moved N → Request db (Filled N)
    after_move order price cost moved =
        try_catch (book order price moved) (undo order cost moved) >>= finish order price

    pub settle : Order N → Account N → N → Request db (Filled N)
    settle order account price =
        let cost = mul price order.quantity in
        move_cash db order.side order account price cost >>= after_move order price cost

    abbrev pub account_for : Order N → Option (Account N) → Request db (Account N)
    account_for order (some account) = pure account
    account_for order none = do
      or_throw (← gets (λ w. db.accounts.find_one (λ a. a.id == order.portfolio_id) w.accounts))
          portfolio_not_found

    -- Pricing the order, the limit test, and the fill.
    pub fill_at_market : Order N → Account N → Request db (Filled N)
    fill_at_market order account = do
      price ← from_result (env.quote order.symbol order.exchange)
      throw_if (not (is_reachable db.num order price)) limit_not_reached
      settle order account price

    pub execute_order : ℕ → Option (Account N) → Option String → Request db (Filled N)
    execute_order order_id portfolio caller = do
      order ←
          or_throw (← gets (λ w. db.orders.find_one (λ o. o.id == order_id) w.orders))
            order_not_found
      throw_if (is_stranger caller order.user_id) order_not_found
      throw_if (not (is_pending order.status)) not_pending
      account ← account_for order portfolio
      fill_at_market order account
