-- ===== src/Portfolio/Execution/Tests.antt =====
-- Runs of order-execution.service.ts.
use ai_trader_api.Base.{◌≡◌, refl, ◌==◌, none, some, [], ◌∷◌}
use ai_trader_api.Base.Int.{ℤ, pos, whole}
use ai_trader_api.Base.Action.{ok, err}
use ai_trader_api.Base.Collection.{update_first}
use ai_trader_api.Portfolio.{
  Order, Trade, Position, buy, sell, nse, executed, insufficient_cash, driver_failure,
}
use ai_trader_api.Portfolio.Execution.Accounting.{with_more}
use ai_trader_api.Portfolio.Execution.{
  fill_at_market, is_reachable, move_cash, buy_cash, after_move, book, write_position_for,
  upsert_position, finish, execute_order, settle, filled_order, trade_of,
}
use ai_trader_api.Portfolio.Execution.Fills.{IsFill, execute_order-IsFill}
use ai_trader_api.Portfolio.Execution.Refusals.{unaffordable_buy_is_rejected, rejection}
use ai_trader_api.Portfolio.Execution.Outcomes.{covered_buy_fills, failed_trade_keeps_shares}
use ai_trader_api.Portfolio.Execution.Races.{race, covered_sell_fills, racing_sells_both_fill}
use ai_trader_api.Portfolio.Sample.{
  Stores, db, env, broken, rich, held, purchase, huge, world, accounts_are_lawful,
  positions_are_lawful, orders_are_lawful, trades_are_lawful,
}

execute_order-IsFill_example : IsFill db env 3 (some "u") world (record {
  order = filled_order db env purchase (pos 110);
  trade = trade_of db env purchase (pos 110) (pos 0);
})
unfolding execute_order fill_at_market is_reachable settle move_cash buy_cash after_move book
    write_position_for upsert_position finish
execute_order-IsFill_example = execute_order-IsFill db env 3 (some "u") world none _ _ refl

unaffordable_buy_is_rejected_example :
    let (r, w') = settle db env huge rich (pos 110) world in
    (r ≡ err insufficient_cash)
    × (w'.accounts ≡ world.accounts)
    × (w'.orders
        ≡ update_first (λ o. o.id == 3) (λ _. rejection db env huge insufficient_cash) world.orders)
    × (w'.positions ≡ world.positions)
    × (w'.trades ≡ world.trades)
unaffordable_buy_is_rejected_example =
    unaffordable_buy_is_rejected db env accounts_are_lawful positions_are_lawful orders_are_lawful
      trades_are_lawful huge rich (pos 110) world refl refl

-- The purchase, and what it leaves of the order, the cash and the position.
abbrev bought_order : Order ℤ
bought_order = record purchase {
  status = executed;
  executed_price = some (pos 110);
  executed_at = some 100000000;
}

abbrev bought_trade : Trade ℤ
bought_trade = record {
  portfolio_id = 1;
  order_id = 3;
  user_id = "u";
  symbol = "TCS";
  exchange = nse;
  side = buy;
  quantity = pos 5;
  price = pos 110;
  realised_pnl = pos 0;
  executed_at = 100000000;
}

abbrev fifteen : Position ℤ
fifteen = with_more whole (pos 110) (pos 5) none 100000000 held

covered_buy_fills_example :
    let (r, w') = settle db env purchase rich (pos 110) world in
    (r ≡ ok (record { order = bought_order; trade = bought_trade }))
    × (w'.accounts ≡ record rich { cash_balance = pos 89450 } ∷ [])
    × (w'.positions ≡ fifteen ∷ [])
    × (w'.orders ≡ bought_order ∷ [])
    × (w'.trades ≡ bought_trade ∷ [])
covered_buy_fills_example =
    covered_buy_fills db env accounts_are_lawful positions_are_lawful orders_are_lawful
      trades_are_lawful purchase rich (pos 110) world refl rich refl refl (some held) refl refl refl
      refl

failed_trade_keeps_shares_example :
    let (r, w') = settle db broken purchase rich (pos 110) world in
    (r ≡ err driver_failure)
    × (w'.accounts ≡ world.accounts)
    × (w'.orders ≡ world.orders)
    × (w'.trades ≡ world.trades)
    × (w'.positions ≡ fifteen ∷ [])
failed_trade_keeps_shares_example =
    failed_trade_keeps_shares db broken accounts_are_lawful positions_are_lawful orders_are_lawful
      trades_are_lawful purchase rich (pos 110) world refl rich refl refl held refl refl refl refl
      refl refl

abbrev partial_sale : Order ℤ
partial_sale = record purchase { side = sell }

abbrev sold_order : Order ℤ
sold_order = record bought_order { side = sell }

abbrev sold_trade : Trade ℤ
sold_trade = record bought_trade { side = sell; realised_pnl = pos 50 }

covered_sell_fills_example :
    let (r, w') = settle db env partial_sale rich (pos 110) world in
    (r ≡ ok (record { order = sold_order; trade = sold_trade }))
    × (w'.accounts ≡ record rich { cash_balance = pos 90550; realised_pnl = pos 50 } ∷ [])
    × (w'.positions
        ≡ record held {
          quantity = pos 5;
          current_price = pos 110;
          unrealised_pnl = pos 50;
          updated_at = some 100000000;
        }
          ∷ [])
    × (w'.orders ≡ sold_order ∷ [])
    × (w'.trades ≡ sold_trade ∷ [])
covered_sell_fills_example =
    covered_sell_fills db accounts_are_lawful positions_are_lawful trades_are_lawful rich env
      orders_are_lawful partial_sale rich (pos 110) held world refl refl refl refl refl refl refl

-- Two orders, each of all that is held.
abbrev first_sale : Order ℤ
first_sale = record purchase { side = sell; quantity = pos 10 }

abbrev second_sale : Order ℤ
second_sale = record first_sale { id = 4; client_order_id = some "k2" }

abbrev two_sales : Stores
two_sales = record world { orders = first_sale ∷ second_sale ∷ [] }

abbrev all_sold : Trade ℤ
all_sold = record sold_trade { quantity = pos 10; realised_pnl = pos 100 }

racing_sells_both_fill_example :
    let ((f, f'), w4) = race db rich env env first_sale second_sale (pos 110) (pos 110) two_sales in
    (f ≡ ok (record { order = record sold_order { quantity = pos 10 }; trade = all_sold }))
    × (f'
        ≡ ok (record {
          order = record sold_order { id = 4; quantity = pos 10; client_order_id = some "k2" };
          trade = record all_sold { order_id = 4 };
        }))
    × (w4.accounts ≡ record rich { cash_balance = pos 92200; realised_pnl = pos 200 } ∷ [])
racing_sells_both_fill_example =
    racing_sells_both_fill db accounts_are_lawful positions_are_lawful trades_are_lawful rich env
      env first_sale second_sale rich (pos 110) (pos 110) held two_sales refl refl refl refl refl
      refl refl (λ h. h) refl refl refl refl refl refl
