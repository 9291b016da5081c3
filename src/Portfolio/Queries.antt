-- ===== src/Portfolio/Queries.antt =====
-- portfolio-accounts.service.ts: what is listed of a user's account, and `createPortfolio`. The sorts are
-- arguments; a limit of zero is none, as in MongoDB.
use ai_trader_api.Base.{ℕ, ◌==◌, String, Option, none, List, str_eq, if◌then◌else◌, or_else, take}
use ai_trader_api.Base.Action.{Action, gets, ◌>>◌}
use ai_trader_api.Portfolio.{Exchange, nse, Reason, Account, Position, Order, Trade, Db, World}
use ai_trader_api.Portfolio.Execution.{Env}
use ai_trader_api.Portfolio.Accounts.{ensure_portfolio}

-- `limit(n)` of a query.
abbrev pub limited : {A : Type 0} → ℕ → List A → List A
limited n xs = if n == 0 then xs else take n xs

module _ {N P Q O T : Type 0} (db : Db N P Q O T) where
  pub create_portfolio :
      Env N → String → Option Exchange → Option N → Action Reason (World N P Q O T) (Account N)
  create_portfolio env user exchange capital =
      ensure_portfolio db env user (or_else exchange nse) capital

  pub list_portfolios : Env N → String → Action Reason (World N P Q O T) (List (Account N))
  list_portfolios env user = do
    ensure_portfolio db env user nse none
    gets (λ w. db.accounts.find (λ a. str_eq a.user_id user) w.accounts)

  unfoldable pub get_orders :
      (List (Order N) → List (Order N)) → String → ℕ → World N P Q O T → List (Order N)
  get_orders newest_first user limit w =
      limited limit (newest_first (db.orders.find (λ o. str_eq o.user_id user) w.orders))

  unfoldable pub get_trades :
      (List (Trade N) → List (Trade N)) → String → ℕ → World N P Q O T → List (Trade N)
  get_trades newest_first user limit w =
      limited limit (newest_first (db.trades.find (λ t. str_eq t.user_id user) w.trades))

  unfoldable pub get_positions : String → World N P Q O T → List (Position N)
  get_positions user w = db.positions.find (λ p. str_eq p.user_id user) w.positions
