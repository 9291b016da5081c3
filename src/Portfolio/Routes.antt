-- ===== src/Portfolio/Routes.antt =====
-- src/portfolio/portfolio.controller.ts: what each route of a signed-in user calls. `upper` is
-- `toUpperCase`, and `parse_limit` what the driver takes `parseInt` of a query text for.
use ai_trader_api.Base.{
  ℕ, ◌≡◌, refl, String, false, ◌==◌, Option, none, some, List, str_eq, or_else, if◌then◌else◌,
}
use ai_trader_api.Base.Action.{Action, err, throw}
use ai_trader_api.Portfolio.{
  Exchange, nse, bse, nasdaq, nyse, forex, Reason, order_not_found, driver_failure, Account,
  Position, Order, Trade, Db, World, PlaceOrderResult,
}
use ai_trader_api.Portfolio.Accounts.{
  PortfolioView, RefreshPricesResult, get_portfolio, reset_portfolio, refresh_position_prices,
}
use ai_trader_api.Portfolio.Risk.{RiskState, get_risk_state}
use ai_trader_api.Portfolio.Queries.{
  create_portfolio, list_portfolios, get_orders, get_trades, get_positions,
}
use ai_trader_api.Portfolio.Execution.{Env, Filled, execute_order}
use ai_trader_api.Portfolio.Execution.Refusals.{foreign_order_stays}
use ai_trader_api.Portfolio.Trading.{PlaceOrderDto, place_order}

-- A text that is cast to an exchange; `none` where it names none.
abbrev pub read_exchange : String → Option Exchange
read_exchange text =
    if str_eq text "NSE"
    then some nse
    else if str_eq text "BSE"
    then some bse
    else if str_eq text "NASDAQ"
    then some nasdaq
    else if str_eq text "NYSE"
    then some nyse
    else if str_eq text "FOREX"
    then some forex
    else none

-- `limit ? parseInt(limit) : standard`
abbrev pub limit_of : (String → ℕ) → Option String → ℕ → ℕ
limit_of parse_limit none standard = standard
limit_of parse_limit (some text) standard = if str_eq text "" then standard else parse_limit text

module _ {N P Q O T : Type 0} (db : Db N P Q O T) (upper : String → String)
    (parse_limit : String → ℕ) (env : Env N) where
  abbrev Route : Type 0 → Type 0
  Route = Action Reason (World N P Q O T)

  -- No account is stored of another exchange than those of the enum, and the driver does not create
  -- one.
  abbrev pub of_exchange : {A : Type 0} → Option Exchange → (Exchange → Route A) → Route A
  of_exchange none call = throw driver_failure
  of_exchange (some exchange) call = call exchange

  pub post_portfolio : String → Option Exchange → Option N → Route (Account N)
  post_portfolio user exchange capital = create_portfolio db env user exchange capital

  pub get_portfolios : String → Route (List (Account N))
  get_portfolios user = list_portfolios db env user

  -- `(dto?.exchange?.toUpperCase() as Exchange) || Exchange.NSE`
  abbrev pub reset_exchange : Option String → Option Exchange
  reset_exchange none = some nse
  reset_exchange (some text) =
      if str_eq (upper text) "" then some nse else read_exchange (upper text)

  pub post_reset : String → Option String → Route N
  post_reset user exchange = of_exchange (reset_exchange exchange) (reset_portfolio db env user)

  pub get_portfolio_of : String → String → Route (PortfolioView N)
  get_portfolio_of user exchange =
      of_exchange (read_exchange (upper exchange)) (get_portfolio db env user)

  pub get_risk : String → Option String → Route (RiskState N)
  get_risk user exchange =
      of_exchange (read_exchange (upper (or_else exchange "NSE"))) (get_risk_state db env user)

  pub post_order : Env N → String → PlaceOrderDto N → Route (PlaceOrderResult N)
  post_order at_fill user dto = place_order db upper env at_fill user dto

  -- The account is not given, and the caller is.
  pub put_execute : String → ℕ → Route (Filled N)
  put_execute user order_id = execute_order db env order_id none (some user)

  pub list_orders :
      (List (Order N) → List (Order N)) → String → Option String → World N P Q O T → List (Order N)
  list_orders newest_first user limit w =
      get_orders db newest_first user (limit_of parse_limit limit 50) w

  pub list_trades :
      (List (Trade N) → List (Trade N)) → String → Option String → World N P Q O T → List (Trade N)
  list_trades newest_first user limit w =
      get_trades db newest_first user (limit_of parse_limit limit 100) w

  pub list_positions : String → World N P Q O T → List (Position N)
  list_positions user w = get_positions db user w

  pub put_refresh : String → World N P Q O T → RefreshPricesResult N × World N P Q O T
  put_refresh user w = refresh_position_prices db env user w

  -- A signed-in user who asks for the execution of another user's order is told that there is no such
  -- order, and nothing is written.
  pub put_execute-foreign :
      (user : String) (order_id : ℕ) (w : World N P Q O T) (order : Order N)
      → db.orders.find_one (λ o. o.id == order_id) w.orders ≡ some order
      → str_eq user "" ≡ false
      → str_eq order.user_id user ≡ false
      → put_execute user order_id w ≡ (err order_not_found, w)
  unfolding put_execute
  put_execute-foreign user order_id w order found named other =
      foreign_order_stays db env order_id none (some user) w order found (rw (named, other) refl)
