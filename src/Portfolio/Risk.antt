-- ===== src/Portfolio/Risk.antt =====
-- src/portfolio/risk-limits.service.ts: the limits, and the gate of a BUY. The text of a refusal is
-- the constructor of its reason.
pub mod Gate
pub mod Foresight
use ai_trader_api.Base.{
  ℕ, ⊤, ◌==◌, ◌+◌, String, Bool, true, false, ◌&&◌, ◌||◌, not, Option, none, some, List, [], ◌∷◌,
  str_eq, if◌then◌else◌, length, filter, any, ltb, leb, is_some,
}
use ai_trader_api.Base.Action.{
  Result, ok, err, Action, pure, throw, gets, from_result, try_catch, ◌>>=◌, ◌>>◌,
}
use ai_trader_api.Base.Collection.{Collection}
use ai_trader_api.Base.Double.{Double}
use ai_trader_api.MarketSession.{session_start}
use ai_trader_api.Portfolio.{
  Exchange, same_exchange, Reason, position_limit, daily_loss_limit, aggregate_risk_limit,
  insufficient_cash, price_unavailable, Account, Position, Order, Trade, Db, World, round2,
}
use ai_trader_api.Portfolio.Execution.{Env, reject}
use ai_trader_api.Portfolio.Accounts.{PortfolioView, sum_from, get_portfolio}

abbrev pub max_concurrent_positions : ℕ
max_concurrent_positions = 5

abbrev pub max_aggregate_risk_pct : ℕ
max_aggregate_risk_pct = 3

abbrev pub max_daily_loss_pct : ℕ
max_daily_loss_pct = 3

abbrev pub assumed_stop_pct_when_unset : ℕ
assumed_stop_pct_when_unset = 5

-- `RiskState`; the limits themselves are the constants above.
pub record RiskState (N : Type 0) : Type 0 where
  pub account_value : N
  pub open_positions : ℕ
  pub open_risk : N
  pub open_risk_pct : N
  pub session_realised_pnl : N
  pub session_realised_pnl_pct : N
  pub session_start : ℕ
  pub positions_without_stop : ℕ
  pub open_risk_is_unbounded : Bool
  pub blocked : Bool
  pub blocked_reason : Option Reason

-- An order that has not been placed yet.
pub record Prospective (N : Type 0) : Type 0 where
  pub symbol : String
  pub quantity : N
  pub price : N
  pub stop_loss : Option N

module _ {N : Type 0} (num : Double N) where
  open num use {of_ℕ, add, sub, mul, div, neg, le, lt, truthy}

  abbrev pub assumed_risk : N → N → N
  assumed_risk quantity average_cost =
      div (mul (mul average_cost quantity) (of_ℕ assumed_stop_pct_when_unset)) (of_ℕ 100)

  -- A stop at or above the entry is no stop.
  unfoldable pub position_risk : N → N → Option N → N
  position_risk quantity average_cost none = assumed_risk quantity average_cost
  position_risk quantity average_cost (some stop) =
      if lt (of_ℕ 0) stop && lt stop average_cost
      then mul (sub average_cost stop) quantity
      else assumed_risk quantity average_cost

  abbrev pub has_stop : Position N → Bool
  has_stop p = elim p.stop_loss [ none ↦ false | some stop ↦ truthy stop ]

  abbrev pub risk_of : Position N → N
  risk_of p = position_risk p.quantity p.average_cost p.stop_loss

  -- Open risk, with the prospective order.
  abbrev pub open_risk_with : List (Position N) → Option (Prospective N) → N
  open_risk_with positions none = sum_from num risk_of (of_ℕ 0) positions
  open_risk_with positions (some o) =
      add (sum_from num risk_of (of_ℕ 0) positions) (position_risk o.quantity o.price o.stop_loss)

  -- Open positions, with the prospective order: adding to one that is held opens none.
  abbrev pub open_positions_with : List (Position N) → Option (Prospective N) → ℕ
  open_positions_with positions none = length positions
  open_positions_with positions (some o) =
      if any (λ p. str_eq p.symbol o.symbol) positions
      then length positions
      else length positions + 1

  -- A share of the account's value.
  abbrev pub pct : N → N → N
  pct value n = if lt (of_ℕ 0) value then mul (div n value) (of_ℕ 100) else of_ℕ 0

  -- The first limit that is passed.
  unfoldable pub blocked_reason : N → ℕ → N → Option Reason
  blocked_reason pnl_pct positions risk_pct =
      if le pnl_pct (neg (of_ℕ max_daily_loss_pct))
      then some daily_loss_limit
      else if ltb max_concurrent_positions positions
      then some position_limit
      else if lt (of_ℕ max_aggregate_risk_pct) risk_pct
      then some aggregate_risk_limit
      else none

module _ {N P Q O T : Type 0} (db : Db N P Q O T) (env : Env N) where
  open db.num use {of_ℕ, mul, lt}

  abbrev Request : Type 0 → Type 0
  Request = Action Reason (World N P Q O T)

  abbrev pub session_trades : String → Exchange → World N P Q O T → List (Trade N)
  session_trades user exchange w =
      db.trades.find
        (λ t.
          str_eq t.user_id user
          && (same_exchange t.exchange exchange && leb (session_start env.now) t.executed_at))
        w.trades

  abbrev pub session_pnl : String → Exchange → World N P Q O T → N
  session_pnl user exchange w =
      sum_from db.num (λ t. t.realised_pnl) (of_ℕ 0) (session_trades user exchange w)

  unfoldable pub state_from :
      PortfolioView N → Option (Prospective N) → World N P Q O T → RiskState N
  state_from view prospective w =
      let positions = view.positions in
      let risk = open_risk_with db.num positions prospective in
      let pnl = session_pnl view.account.user_id view.account.exchange w in
      let risk_pct = pct db.num view.total_value risk in
      let pnl_pct = pct db.num view.total_value pnl in
      let without_stop = length (filter (λ p. not (has_stop db.num p)) positions) in
      let reason =
        blocked_reason db.num pnl_pct (open_positions_with db.num positions prospective) risk_pct in
      record {
        account_value = round2 db.num view.total_value;
        open_positions = length positions;
        open_risk = round2 db.num risk;
        open_risk_pct = round2 db.num risk_pct;
        session_realised_pnl = round2 db.num pnl;
        session_realised_pnl_pct = round2 db.num pnl_pct;
        session_start = session_start env.now;
        positions_without_stop = without_stop;
        open_risk_is_unbounded = ltb 0 without_stop || ltb 0 (length positions);
        blocked = is_some reason;
        blocked_reason = reason;
      }

  unfoldable pub get_risk_state : String → Exchange → Request (RiskState N)
  get_risk_state user exchange = do
    view ← get_portfolio db env user exchange
    gets (state_from view none)

  -- `order.limitPrice ?? fetchLtp(…)`
  abbrev pub price_for : Order N → Result Reason N
  price_for order = elim order.limit_price [
    | some p ↦ ok p
    | none ↦ env.quote order.symbol order.exchange
  ]

  abbrev pub prospect : Order N → N → Prospective N
  prospect order price = record {
    symbol = order.symbol;
    quantity = order.quantity;
    price = price;
    stop_loss = order.stop_loss;
  }

  abbrev pub refuse_blocked : Order N → Option Reason → Request ⊤
  refuse_blocked order none = pure tt
  refuse_blocked order (some reason) = reject db order reason

  -- The limits, for a price and a view.
  unfoldable pub check_limits : Order N → N → PortfolioView N → Request ⊤
  check_limits order price view =
      if lt view.account.cash_balance (mul price order.quantity)
      then reject db order insufficient_cash
      else gets (state_from view (some (prospect order price))) >>= λ state.
          refuse_blocked order state.blocked_reason

  unfoldable pub guard_buy_order : Order N → Exchange → Request ⊤
  guard_buy_order order exchange = do
    price ← try_catch (from_result (price_for order)) (λ _. reject db order price_unavailable)
    view ← get_portfolio db env order.user_id exchange
    check_limits order price view
