-- ===== src/Portfolio/Context.antt =====
-- src/portfolio/portfolio-internal.controller.ts: what the chat agent is told of a user's account. Each
-- of the six reads may fail by itself; `Sections` holds how they ended.
pub mod Limits
use ai_trader_api.Base.{
  ℕ, ◌≡◌, refl, ◌∙◌, sym, String, Bool, true, false, Option, none, some, List, [], ◌∷◌, map, filter,
  take, str_eq,
}
use ai_trader_api.Base.Text.{Text}
use ai_trader_api.Base.Action.{Result, ok, err}
use ai_trader_api.Portfolio.{
  Exchange, nse, Side, OrderType, Reason, is_pending, Account, Position, Order, Trade, Db, World,
}
use ai_trader_api.Portfolio.Execution.{Env}
use ai_trader_api.Portfolio.Accounts.{PortfolioView, get_portfolio}
use ai_trader_api.Portfolio.Risk.{RiskState, get_risk_state}
use ai_trader_api.Portfolio.Queries.{get_orders, get_trades, get_positions}
use ai_trader_api.Watchlist.{WatchlistItem}

module _ (N : Type 0) where
  pub record AccountSummary : Type 0 where
    pub cash_balance : N
    pub initial_capital : N
    pub total_value : N
    pub realised_pnl : N
    pub unrealised_pnl : N
    pub marks_as_of : Option ℕ
    pub marks_stale : Bool
    pub total_pnl : N

  pub record PositionView : Type 0 where
    pub symbol : String
    pub exchange : Exchange
    pub quantity : N
    pub average_cost : N
    pub current_price : N
    pub unrealised_pnl : N
    pub stop_loss : Option N

  pub record OpenOrder : Type 0 where
    pub symbol : String
    pub side : Side
    pub quantity : N
    pub type : OrderType
    pub limit_price : Option N

  pub record RecentTrade : Type 0 where
    pub symbol : String
    pub side : Side
    pub quantity : N
    pub price : N
    pub realised_pnl : N
    pub executed_at : ℕ

  -- The answer of the route.
  pub record TradingContext : Type 0 where
    pub portfolio : Option AccountSummary
    pub risk_state : Option (RiskState N)
    pub positions : List PositionView
    pub open_orders : List OpenOrder
    pub watchlist : List (Text × Text)
    pub recent_trades : List RecentTrade

  -- How the reads ended.
  pub record Sections : Type 0 where
    pub summary : Result Reason (PortfolioView N)
    pub positions : Result Reason (List (Position N))
    pub orders : Result Reason (List (Order N))
    pub trades : Result Reason (List (Trade N))
    pub watchlist : Result Reason (List WatchlistItem)
    pub risk : Result Reason (RiskState N)

abbrev pub or_empty : {A : Type 0} → Result Reason (List A) → List A
or_empty (ok xs) = xs
or_empty (err e) = []

abbrev pub or_null : {A : Type 0} → Result Reason A → Option A
or_null (ok a) = some a
or_null (err e) = none

module _ {N : Type 0} where
  abbrev pub summary_of_view : Option (PortfolioView N) → Option (AccountSummary N)
  summary_of_view none = none
  summary_of_view (some v) = some (record {
    cash_balance = v.account.cash_balance;
    initial_capital = v.account.initial_capital;
    total_value = v.total_value;
    realised_pnl = v.account.realised_pnl;
    unrealised_pnl = v.unrealised_pnl;
    marks_as_of = v.marks_as_of;
    marks_stale = v.marks_stale;
    total_pnl = v.total_pnl;
  })

  abbrev pub position_view : Position N → PositionView N
  position_view p = record {
    symbol = p.symbol;
    exchange = p.exchange;
    quantity = p.quantity;
    average_cost = p.average_cost;
    current_price = p.current_price;
    unrealised_pnl = p.unrealised_pnl;
    stop_loss = p.stop_loss;
  }

  abbrev pub open_order_view : Order N → OpenOrder N
  open_order_view o = record {
    symbol = o.symbol;
    side = o.side;
    quantity = o.quantity;
    type = o.type;
    limit_price = o.limit_price;
  }

  abbrev pub recent_trade : Trade N → RecentTrade N
  recent_trade t = record {
    symbol = t.symbol;
    side = t.side;
    quantity = t.quantity;
    price = t.price;
    realised_pnl = t.realised_pnl;
    executed_at = t.executed_at;
  }

  -- The answer, of how the reads ended.
  unfoldable pub context_of : Sections N → TradingContext N
  context_of s = record {
    portfolio = summary_of_view (or_null s.summary);
    risk_state = or_null s.risk;
    positions = map position_view (or_empty s.positions);
    open_orders = map open_order_view (filter (λ o. is_pending o.status) (or_empty s.orders));
    watchlist = map (λ (d : WatchlistItem). (d.symbol, d.exchange)) (or_empty s.watchlist);
    recent_trades = map recent_trade (take 50 (or_empty s.trades));
  }

module _ {N P Q O T : Type 0} (db : Db N P Q O T) (env : Env N)
    (newest_orders : List (Order N) → List (Order N))
    (newest_trades : List (Trade N) → List (Trade N)) where
  -- The reads at one state of the stores, none of which the driver lets fail. Those of the account
  -- and of the limits write nothing for a user who has an account.
  unfoldable pub sections_at : String → List WatchlistItem → World N P Q O T → Sections N
  sections_at user watchlist w = record {
    summary = (get_portfolio db env user nse w).0;
    positions = ok (get_positions db user w);
    orders = ok (get_orders db newest_orders user 20 w);
    trades = ok (get_trades db newest_trades user 50 w);
    watchlist = ok watchlist;
    risk = (get_risk_state db env user nse w).0;
  }

  -- `context`.
  unfoldable pub context : String → List WatchlistItem → World N P Q O T → TradingContext N
  context user watchlist w = context_of (sections_at user watchlist w)
