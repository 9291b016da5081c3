-- ===== src/Portfolio/Execution/Sales.antt =====
-- order-execution.service.ts: a SELL whose position covers it, in its two halves: the cash movement, and
-- what follows it.
use ai_trader_api.Base.{
  ◌≡◌, refl, false, Option, some, ◌∷◌, ◌==◌, str_eq, if◌then◌else◌, inl, inr, Bool-cases,
}
use ai_trader_api.Base.Action.{ok}
use ai_trader_api.Portfolio.{
  Account, Order, Position, Trade, Db, World, sell, order_update, positions_update,
}
use ai_trader_api.Portfolio.Execution.{
  Env, Moved, Filled, move_cash, sell_cash, after_move, book, write_position_for, reduce_position,
  finish, create_trade, write_position, save_order, inc_both, held_by, shrunk, trade_of,
  filled_order, create_trade_doc, save_position,
}

module _ {N P Q O T : Type 0} (db : Db N P Q O T) where
  open db.num use {of_ℕ, sub, mul, lt, eq}

  -- What a sale at a price adds to the account, of a position.
  abbrev pub gain : Order N → N → Position N → N
  gain order price p = mul (sub price p.average_cost) order.quantity

  abbrev pub earn : Order N → N → Position N → Account N → Account N
  earn order price p = inc_both db.num (mul price order.quantity) (gain order price p)

  abbrev pub sold : Order N → N → Position N → Account N → Moved N
  sold order price p a = record {
    account = a;
    sell_position = some p;
    sell_avg_cost = p.average_cost;
    realised_pnl = gain order price p;
  }

  abbrev pub credited : Account N → Order N → N → Position N → P → Option (Account N) × P
  credited account order price p accounts =
      db.accounts.find_one_and_update (λ b. b.id == account.id) (earn order price p) accounts

  -- The cash movement of a SELL that the position covers.
  pub sell_moved :
      (order : Order N) (account a : Account N) (price : N) (p : Position N) (w : World N P Q O T)
      → db.positions.find_one (held_by db account.id order.symbol) w.positions ≡ some p
      → lt p.quantity order.quantity ≡ false
      → (credited account order price p w.accounts).0 ≡ some a
      → move_cash db sell order account price (mul price order.quantity) w ≡ (
        ok (sold order price p a),
        record w { accounts = (credited account order price p w.accounts).1 },
      )
  unfolding move_cash sell_cash
  sell_moved order account a price p w held enough paid = rw (held, enough, paid) refl

  module _ (env : Env N) where
    abbrev pub shrunk_position : Order N → N → Position N → Q → Option (Position N) × Q
    shrunk_position order price p positions =
        db.positions.find_one_and_update (λ q. q.id == p.id) (λ _. shrunk db env order price p)
          positions

    -- The position of a sale, closed or shrunk.
    abbrev pub reduced : Order N → N → Position N → Q → Q
    reduced order price p positions =
        if eq (sub p.quantity order.quantity) (of_ℕ 0)
        then (db.positions.delete_one (λ q. q.id == p.id) positions).1
        else (shrunk_position order price p positions).1

    abbrev pub sale : Order N → N → Position N → Trade N
    sale order price p = trade_of db env order price p.average_cost

    abbrev pub sale_filled : Order N → N → Position N → Filled N
    sale_filled order price p = record {
      order = filled_order db env order price;
      trade = sale order price p;
    }

    abbrev pub after_sale : Order N → N → Position N → T → World N P Q O T → World N P Q O T
    after_sale order price p trades w = record {
      accounts = w.accounts;
      positions = reduced order price p w.positions;
      orders =
          (db.orders.find_one_and_update (λ o. o.id == order.id)
            (λ _. filled_order db env order price) w.orders).1;
      trades = trades;
      events =
          positions_update order.user_id (
            db.positions.find (λ q. str_eq q.user_id order.user_id)
              (reduced order price p w.positions))
          ∷ order_update order.user_id (filled_order db env order price)
          ∷ w.events;
    }

    -- What follows the cash movement, where no call of the driver fails.
    pub sale_booked :
        (order : Order N) (a : Account N) (price : N) (p : Position N) (trades : T)
        (w : World N P Q O T)
        → order.side ≡ sell
        → env.fails write_position ≡ false
        → env.fails create_trade ≡ false
        → env.fails save_order ≡ false
        → db.trades.create (sale order price p) w.trades ≡ some trades
        → (eq (sub p.quantity order.quantity) (of_ℕ 0) ≡ false
            → (shrunk_position order price p w.positions).0 ≡ some (shrunk db env order price p))
        → after_move db env order price (mul price order.quantity) (sold order price p a) w
          ≡ (ok (sale_filled order price p), after_sale order price p trades w)
    unfolding after_move book write_position_for reduce_position finish
    sale_booked order a price p trades w is_sell wp ct so made kept =
        let stored = rw is_sell at made in
        elim (Bool-cases (eq (sub p.quantity order.quantity) (of_ℕ 0))) [
          | inl e ↦ rw (is_sell, wp, e, ct) (rw (stored, create_trade_doc, trade_of, so) refl)
          | inr e ↦
              rw (is_sell, wp, e, save_position, kept e, ct)
                (rw (stored, create_trade_doc, trade_of, so) refl)
        ]
