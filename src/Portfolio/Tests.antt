-- ===== src/Portfolio/Tests.antt =====
-- Runs of the portfolio services.
use ai_trader_api.Base.{◌≡◌, refl, String, none, some, [], ◌∷◌, ◌+◌, eq_iff, arith}
use ai_trader_api.Base.Int.{ℤ, whole, pos, covered_ℤ, gained_ℤ, negsuc}
use ai_trader_api.Base.Action.{ok, err}
use ai_trader_api.Portfolio.{
  positions_update, nse, buy, limit, market, Order, Reason, insufficient_cash, daily_loss_limit,
  placement_result, order_not_found,
}
use ai_trader_api.Portfolio.Accounts.Marks.{refresh_reports_every_position}
use ai_trader_api.Portfolio.Accounts.Views.{fresh_view, reset_portfolio_lem}
use ai_trader_api.Portfolio.Execution.{trade_of}
use ai_trader_api.Portfolio.Routes.{put_execute, put_execute-foreign}
use ai_trader_api.Portfolio.Risk.Gate.{Settles, guard_buy_order-Settles}
use ai_trader_api.Portfolio.Execution.Cash.{AllSolvent}
use ai_trader_api.Portfolio.Execution.Solvency.{IsSound}
use ai_trader_api.Portfolio.Execution.Refusals.{rejection}
use ai_trader_api.Portfolio.Trading.Buying.{place_buy-AllSolvent, refused_buy_is_not_executed}
use ai_trader_api.Portfolio.Trading.{PlaceOrderDto, new_order, place_order, square_off_all}
use ai_trader_api.Portfolio.Trading.SquareOff.{IsReport, square_off_all-IsReport}
use ai_trader_api.Portfolio.Trading.Idempotency.{repeat_places_nothing}
use ai_trader_api.Portfolio.Accounts.{
  refresh_position_prices, reset_portfolio, view_of, get_portfolio, ensure_portfolio,
}
use ai_trader_api.MarketSession.{session_start}
use ai_trader_api.Portfolio.Context.{context, context_of, sections_at}
use ai_trader_api.Portfolio.Context.Limits.{blocked_context_refuses_buys}
use ai_trader_api.Portfolio.Risk.{
  position_risk, get_risk_state, state_from, blocked_reason, guard_buy_order, check_limits,
}
use ai_trader_api.Portfolio.Sample.{
  Stores, db, env, rich, held, purchase, world, accounts_are_lawful, positions_are_lawful,
  orders_are_lawful, trades_are_lawful,
}

refresh_reports_every_position_example :
    let r = (refresh_position_prices db env "u" world).0 in
    (r.refreshed + r.stale ≡ 1) × (r.stale_symbols ≡ [])
refresh_reports_every_position_example =
    refresh_reports_every_position db env positions_are_lawful "u" world

reset_portfolio_lem_example :
    let (r, w') = reset_portfolio db env "u" nse world in
    (r ≡ ok (pos 100000))
    × (w'.accounts ≡ record rich { cash_balance = pos 100000 } ∷ [])
    × (w'.positions ≡ [])
    × (w'.orders ≡ [])
    × (w'.trades ≡ [])
    × (w'.events ≡ positions_update "u" [] ∷ [])
    × (get_portfolio db env "u" nse w' ≡ (ok (fresh_view whole rich), w'))
reset_portfolio_lem_example =
    reset_portfolio_lem db env "u" nse world rich refl accounts_are_lawful positions_are_lawful
      orders_are_lawful trades_are_lawful refl

guard_buy_order-Settles_example :
    Settles db env purchase nse world rich refl (guard_buy_order db env purchase nse world)
guard_buy_order-Settles_example = guard_buy_order-Settles db env purchase nse world rich refl

square_off_all-IsReport_example : IsReport (held ∷ []) (square_off_all db (λ _. env) world).0
square_off_all-IsReport_example = square_off_all-IsReport db (λ _. env) positions_are_lawful world

-- The request that `purchase` came from, sent again.
abbrev request : PlaceOrderDto ℤ
request = record {
  symbol = "tcs";
  exchange = nse;
  side = buy;
  type = some limit;
  quantity = pos 5;
  limit_price = some (pos 120);
  stop_loss = none;
  client_order_id = some "k";
  decision_turn_id = none;
}

repeat_places_nothing_example :
    place_order db (λ _. "TCS") env env "u" request world
    ≡ (ok (placement_result purchase none), world)
repeat_places_nothing_example =
    repeat_places_nothing db (λ _. "TCS") env env orders_are_lawful "u" "k" request refl
      (ground (arith, eq_iff "k" "")) world purchase refl rich refl

abbrev buying : PlaceOrderDto ℤ
buying = record request { client_order_id = none; type = some market }

abbrev too_much : PlaceOrderDto ℤ
too_much = record buying { quantity = pos 5000 }

abbrev upper : String → String
upper s = "TCS"

abbrev bought : Order ℤ
bought = new_order db upper env env "u" buying rich

bought-IsSound : IsSound db env accounts_are_lawful bought
bought-IsSound = record {
  pays = covered_ℤ;
  returns = λ cost a h k. gained_ℤ a cost k h;
  costs = λ price e. let same : price ≡ pos 110 = cc in rw same refl;
}

place_buy-AllSolvent_example :
    AllSolvent db env accounts_are_lawful (place_order db upper env env "u" buying world).1
place_buy-AllSolvent_example =
    place_buy-AllSolvent db upper env env orders_are_lawful "u" buying refl world rich refl refl
      accounts_are_lawful bought-IsSound (refl, tt) refl

abbrev declined : Order ℤ
declined = rejection db env (new_order db upper env env "u" too_much rich) insufficient_cash

refused_buy_is_not_executed_example :
    let (r, v) = place_order db upper env env "u" too_much world in
    (r ≡ err insufficient_cash)
    × (v.orders ≡ purchase ∷ declined ∷ [])
    × (v.accounts ≡ world.accounts)
    × (v.positions ≡ world.positions)
    × (v.trades ≡ world.trades)
    × (v.events ≡ world.events)
unfolding guard_buy_order check_limits get_portfolio ensure_portfolio
refused_buy_is_not_executed_example =
    refused_buy_is_not_executed db upper env env orders_are_lawful "u" too_much refl world rich refl
      refl (purchase ∷ new_order db upper env env "u" too_much rich ∷ []) refl insufficient_cash
      refl refl

-- An account that lost more than its value in the session, as whole numbers divide.
abbrev losing : Stores
losing = record world {
  trades = record (trade_of db env purchase (pos 110) (pos 0)) { realised_pnl = negsuc 91999 } ∷ [];
}

blocked_context_refuses_buys_example :
    (e : Reason) × ((guard_buy_order db env purchase nse losing).0 ≡ err e)
unfolding context context_of sections_at get_risk_state state_from get_portfolio ensure_portfolio
    blocked_reason position_risk session_start
blocked_context_refuses_buys_example =
    blocked_context_refuses_buys db env (λ o. o) (λ t. t) purchase rich []
      (state_from db env (view_of db env rich (held ∷ [])) none losing) daily_loss_limit losing refl
      refl refl (cc)

stranger_run : put_execute db (λ t. t) (λ t. 50) env "v" 3 world ≡ (err order_not_found, world)
stranger_run =
    put_execute-foreign db (λ t. t) (λ t. 50) env "v" 3 world purchase refl
      (ground (arith, eq_iff "v" "")) (ground (arith, eq_iff "u" "v"))
