-- ===== src/Portfolio/Context/Limits.antt =====
-- portfolio-internal.controller.ts: the limits that the agent is told of, and the gate.
use ai_trader_api.Base.{◌≡◌, ◌≢◌, ap, some, List}
use ai_trader_api.Base.Action.{Result, ok, err}
use ai_trader_api.Portfolio.{nse, Reason, aggregate_risk_limit, Account, Order, Trade, Db, World}
use ai_trader_api.Portfolio.Execution.{Env}
use ai_trader_api.Portfolio.Accounts.{owned_by}
use ai_trader_api.Portfolio.Risk.{RiskState, guard_buy_order, get_risk_state}
use ai_trader_api.Portfolio.Risk.Foresight.{blocked_state_refuses_buys}
use ai_trader_api.Portfolio.Context.{context, context_of, sections_at, or_null}
use ai_trader_api.Watchlist.{WatchlistItem}

or_null-some : {A : Type 0} (r : Result Reason A) (a : A) → or_null r ≡ some a → r ≡ ok a
or_null-some (ok b) a h = ap ok (cc)
or_null-some (err e) a h = cc

module _ {N P Q O T : Type 0} (db : Db N P Q O T) (env : Env N)
    (newest_orders : List (Order N) → List (Order N))
    (newest_trades : List (Trade N) → List (Trade N)) where
  -- If the context of a user with an account shows the agent a state that is blocked by the loss of the
  -- session or by the number of positions, then the gate refuses every BUY of the user on the exchange,
  -- at that time and in that state of the stores.
  pub blocked_context_refuses_buys :
      (order : Order N) (account : Account N) (watchlist : List WatchlistItem) (st : RiskState N)
      (r : Reason) (w : World N P Q O T)
      → db.accounts.find_one (owned_by order.user_id nse) w.accounts ≡ some account
      → (context db env newest_orders newest_trades order.user_id watchlist w).risk_state ≡ some st
      → st.blocked_reason ≡ some r
      → r ≢ aggregate_risk_limit
      → (e : Reason) × ((guard_buy_order db env order nse w).0 ≡ err e)
  unfolding context context_of sections_at
  blocked_context_refuses_buys order account watchlist st r w owned shown blocked other =
      blocked_state_refuses_buys db env order nse w account owned st r
        (or_null-some (get_risk_state db env order.user_id nse w).0 st shown) blocked other
