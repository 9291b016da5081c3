-- ===== src/Portfolio/Sample.antt =====
-- Small stores over whole numbers, on which the portfolio services are run.
use ai_trader_api.Base.{Bool, true, false, none, some, List, [], ◌∷◌}
use ai_trader_api.Base.Int.{ℤ, pos, whole}
use ai_trader_api.Base.Action.{ok}
use ai_trader_api.Base.Collection.{list_collection, list_collection-IsLawful, IsLawful}
use ai_trader_api.Portfolio.{
  nse, Account, Position, Order, Trade, Db, World, buy, limit, pending, same_account, same_position,
  same_order, no_clash,
}
use ai_trader_api.Portfolio.Execution.{Env, Call, create_trade, filled_order}

abbrev pub Stores : Type 0
Stores = World ℤ (List (Account ℤ)) (List (Position ℤ)) (List (Order ℤ)) (List (Trade ℤ))

abbrev pub db : Db ℤ (List (Account ℤ)) (List (Position ℤ)) (List (Order ℤ)) (List (Trade ℤ))
db = record {
  num = whole;
  accounts = list_collection same_account;
  positions = list_collection same_position;
  orders = list_collection same_order;
  trades = list_collection no_clash;
}

-- Every symbol trades at 110, at noon of the second day, and no call fails.
abbrev pub env : Env ℤ
env = record {
  quote = λ symbol exchange. ok (pos 110);
  fails = λ call. false;
  now = 100000000;
  fresh_id = 9;
}

abbrev pub no_trade : Call → Bool
no_trade create_trade = true
no_trade _ = false

abbrev pub broken : Env ℤ
broken = record env { fails = no_trade }

abbrev pub rich : Account ℤ
rich = record {
  id = 1;
  user_id = "u";
  exchange = nse;
  initial_capital = pos 100000;
  cash_balance = pos 90000;
  total_position_value = pos 0;
  realised_pnl = pos 0;
}

abbrev pub held : Position ℤ
held = record {
  id = 2;
  portfolio_id = 1;
  user_id = "u";
  symbol = "TCS";
  exchange = nse;
  quantity = pos 10;
  average_cost = pos 100;
  current_price = pos 100;
  unrealised_pnl = pos 0;
  stop_loss = some (pos 95);
  updated_at = none;
}

abbrev pub purchase : Order ℤ
purchase = record {
  id = 3;
  portfolio_id = 1;
  user_id = "u";
  symbol = "TCS";
  exchange = nse;
  side = buy;
  type = limit;
  quantity = pos 5;
  limit_price = some (pos 120);
  stop_loss = none;
  status = pending;
  executed_price = none;
  executed_at = none;
  rejection_reason = none;
  client_order_id = some "k";
  decision_turn_id = none;
}

abbrev pub huge : Order ℤ
huge = record purchase { quantity = pos 5000 }

abbrev pub world : Stores
world = record {
  accounts = rich ∷ [];
  positions = held ∷ [];
  orders = purchase ∷ [];
  trades = [];
  events = [];
}

abbrev pub done : Stores
done = record world { orders = filled_order db env purchase (pos 110) ∷ [] }

abbrev pub accounts_are_lawful : IsLawful same_account db.accounts
accounts_are_lawful = list_collection-IsLawful same_account

abbrev pub positions_are_lawful : IsLawful same_position db.positions
positions_are_lawful = list_collection-IsLawful same_position

abbrev pub orders_are_lawful : IsLawful same_order db.orders
orders_are_lawful = list_collection-IsLawful same_order

abbrev pub trades_are_lawful : IsLawful no_clash db.trades
trades_are_lawful = list_collection-IsLawful no_clash
