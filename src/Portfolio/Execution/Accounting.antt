-- ===== src/Portfolio/Execution/Accounting.antt =====
-- What an order that fills means for the documents, written down apart from the service: the money that
-- moves, the shares that move, and what is recorded of it.
use ai_trader_api.Base.{ℕ, Option, none, some}
use ai_trader_api.Base.Double.{Double}
use ai_trader_api.Portfolio.{Account, Position, Order, Trade, executed}

module _ {N : Type 0} (num : Double N) where
  open num use {of_ℕ, add, sub, mul, div, neg}

  -- The account pays for so many shares at a price, or is paid for them, which earns what the price is
  -- above the cost.
  abbrev pub paying : N → N → Account N → Account N
  paying price quantity a = record a {
    cash_balance = add a.cash_balance (neg (mul price quantity));
  }

  abbrev pub paid : N → N → N → Account N → Account N
  paid price quantity cost a = record a {
    cash_balance = add a.cash_balance (mul price quantity);
    realised_pnl = add a.realised_pnl (mul (sub price cost) quantity);
  }

  -- More shares at a price: the average cost is that of all the shares, and a stop that is named
  -- replaces the old one.
  abbrev pub with_more : N → N → Option N → ℕ → Position N → Position N
  with_more price quantity stop now p =
      let total = add p.quantity quantity in
      let average = div (add (mul p.average_cost p.quantity) (mul price quantity)) total in
      record p {
        quantity = total;
        average_cost = average;
        current_price = price;
        unrealised_pnl = mul (sub price average) total;
        stop_loss = elim stop [ none ↦ p.stop_loss | some new ↦ some new ];
        updated_at = some now;
      }

  -- The first shares of a symbol.
  abbrev pub first_shares : ℕ → ℕ → N → ℕ → Order N → Position N
  first_shares id account price now order = record {
    id = id;
    portfolio_id = account;
    user_id = order.user_id;
    symbol = order.symbol;
    exchange = order.exchange;
    quantity = order.quantity;
    average_cost = price;
    current_price = price;
    unrealised_pnl = of_ℕ 0;
    stop_loss = order.stop_loss;
    updated_at = some now;
  }

  -- Fewer shares: their cost stays.
  abbrev pub with_fewer : N → N → ℕ → Position N → Position N
  with_fewer price quantity now p =
      let left = sub p.quantity quantity in
      record p {
        quantity = left;
        current_price = price;
        unrealised_pnl = mul (sub price p.average_cost) left;
        updated_at = some now;
      }

  abbrev pub executed_at_price : N → ℕ → Order N → Order N
  executed_at_price price now order = record order {
    status = executed;
    executed_price = some price;
    executed_at = some now;
  }

  -- The trade of an order, with its profit.
  abbrev pub trade_at : N → N → ℕ → Order N → Trade N
  trade_at price profit now order = record {
    portfolio_id = order.portfolio_id;
    order_id = order.id;
    user_id = order.user_id;
    symbol = order.symbol;
    exchange = order.exchange;
    side = order.side;
    quantity = order.quantity;
    price = price;
    realised_pnl = profit;
    executed_at = now;
  }
