-- ===== src/Portfolio/Execution/Refusals.antt =====
-- order-execution.service.ts: what a refused or failed order leaves behind.
use ai_trader_api.Base.{
  ℕ, ◌≡◌, refl, String, Bool, true, false, ◌&&◌, Option, none, some, ◌∷◌, ◌==◌, str_eq, ◌∙◌, ap,
  find?,
}
use ai_trader_api.Base.Action.{ok, err}
use ai_trader_api.Base.Collection.{IsLawful, update_first}
use mathlib.Core.Option
use ai_trader_api.Base.Updates.{update_first-none}
use ai_trader_api.Portfolio.{
  positions_update, order_update, same_account, same_position, same_order, no_clash, Reason,
  Account, Order, Position, Db, World, buy, is_pending, not_pending, order_not_found,
  insufficient_cash, driver_failure, rejected,
}
use ai_trader_api.Portfolio.Execution.{
  trade_of, filled_order, Env, is_stranger, execute_order, settle, after_move, finish, undo, book,
  compensate_cash, move_cash, buy_cash, upsert_position, write_position_for, create_trade,
  create_trade_doc, save_position, write_position, restore_cash, save_order, inc_cash, inc_both,
  held_by, grown, opened, create_position, Filled,
}

module _ {N P Q O T : Type 0} (db : Db N P Q O T) (env : Env N) where
  open db.num use {of_ℕ, add, sub, mul, neg, le, lt}

  -- An order that is no longer pending is refused and nothing is touched.
  pub settled_order_is_final :
      (order_id : ℕ) (account : Option (Account N)) (caller : Option String) (w : World N P Q O T)
      (order : Order N)
      → db.orders.find_one (λ o. o.id == order_id) w.orders ≡ some order
      → is_stranger caller order.user_id ≡ false
      → is_pending order.status ≡ false
      → execute_order db env order_id account caller w ≡ (err not_pending, w)
  unfolding execute_order
  settled_order_is_final order_id account caller w order found own closed = rw (found, own, closed)

  -- An order of another user than the caller is not found for the caller, and nothing is touched.
  pub foreign_order_stays :
      (order_id : ℕ) (account : Option (Account N)) (caller : Option String) (w : World N P Q O T)
      (order : Order N)
      → db.orders.find_one (λ o. o.id == order_id) w.orders ≡ some order
      → is_stranger caller order.user_id ≡ true
      → execute_order db env order_id account caller w ≡ (err order_not_found, w)
  unfolding execute_order
  foreign_order_stays order_id account caller w order found stranger = rw (found, stranger) refl

  -- The conditional debit of a BUY.
  abbrev pub affords : Account N → N → Account N → Bool
  affords account cost a = a.id == account.id && le cost a.cash_balance

  abbrev pub rejection : Order N → Reason → Order N
  rejection order reason = record order { status = rejected; rejection_reason = some reason }

  module _ (order : Order N) (account : Account N) (price : N) (w : World N P Q O T)
      (is_buy : order.side ≡ buy) where
    abbrev pub cost : N
    cost = mul price order.quantity

    abbrev pub debit : Option (Account N) × P
    debit =
        db.accounts.find_one_and_update (affords account cost) (inc_cash db.num (neg cost))
          w.accounts

    buy_short :
        debit.0 ≡ none
        → settle db env order account price w ≡ (
          err insufficient_cash,
          record w {
            accounts = debit.1;
            orders =
                (db.orders.find_one_and_update
                  (λ o. o.id == order.id)
                  (λ _. rejection order insufficient_cash)
                  w.orders).1;
          },
        )
    unfolding settle move_cash buy_cash
    buy_short e = rw (is_buy, e)

    -- The save of the position that is held, and the first of a symbol.
    abbrev pub grown_positions : Position N → Option (Position N) × Q
    grown_positions p =
        db.positions.find_one_and_update (λ q. q.id == p.id) (λ _. grown db env order price p)
          w.positions

    -- What follows where the position is written and every call goes through.
    abbrev pub bought : Q → T → World N P Q O T
    bought positions trades = record {
      accounts = debit.1;
      positions = positions;
      orders =
          (db.orders.find_one_and_update (λ o. o.id == order.id)
            (λ _. filled_order db env order price) w.orders).1;
      trades = trades;
      events =
          positions_update order.user_id
            (db.positions.find (λ q. str_eq q.user_id order.user_id) positions)
          ∷ order_update order.user_id (filled_order db env order price)
          ∷ w.events;
    }

    abbrev pub buy_answer : Filled N
    buy_answer = record {
      order = filled_order db env order price;
      trade = trade_of db env order price (of_ℕ 0);
    }

    -- The debit went through and a position is held: what is written when booking the trade fails.
    pub buy_unbooked :
        (a : Account N) (p : Position N)
        → debit.0 ≡ some a
        → db.positions.find_one (held_by db a.id order.symbol) w.positions ≡ some p
        → env.fails write_position ≡ false
        → env.fails create_trade ≡ true
        → env.fails restore_cash ≡ false
        → (grown_positions p).0 ≡ some (grown db env order price p)
        → settle db env order account price w ≡ (
          err driver_failure,
          record w {
            accounts =
                (db.accounts.find_one_and_update
                  (λ b. b.id == a.id)
                  (inc_both db.num cost (neg (of_ℕ 0)))
                  debit.1).1;
            positions = (grown_positions p).1;
          },
        )
    unfolding settle after_move move_cash buy_cash book write_position_for upsert_position undo
        compensate_cash
    buy_unbooked a p e found wp ct rc kept = rw (is_buy, e, found, wp, save_position, kept, ct, rc)

    -- The same where every call goes through.
    pub buy_booked :
        (a : Account N) (p : Position N) (trades : T)
        → debit.0 ≡ some a
        → db.positions.find_one (held_by db a.id order.symbol) w.positions ≡ some p
        → env.fails write_position ≡ false
        → env.fails create_trade ≡ false
        → env.fails save_order ≡ false
        → db.trades.create (trade_of db env order price (of_ℕ 0)) w.trades ≡ some trades
        → (grown_positions p).0 ≡ some (grown db env order price p)
        → settle db env order account price w ≡ (ok buy_answer, bought (grown_positions p).1 trades)
    unfolding settle after_move move_cash buy_cash book write_position_for upsert_position finish
    buy_booked a p trades e found wp ct so made kept =
        let stored = rw is_buy at made in
        rw (is_buy, e, found, wp, save_position, kept, ct)
          (rw (stored, create_trade_doc, trade_of, so) refl)

    -- The same where no position is held.
    pub buy_opened :
        (a : Account N) (positions : Q) (trades : T)
        → debit.0 ≡ some a
        → db.positions.find_one (held_by db a.id order.symbol) w.positions ≡ none
        → env.fails write_position ≡ false
        → env.fails create_trade ≡ false
        → env.fails save_order ≡ false
        → db.trades.create (trade_of db env order price (of_ℕ 0)) w.trades ≡ some trades
        → db.positions.create (opened db env order price a) w.positions ≡ some positions
        → settle db env order account price w ≡ (ok buy_answer, bought positions trades)
    unfolding settle after_move move_cash buy_cash book write_position_for upsert_position finish
    buy_opened a positions trades e found wp ct so made fresh =
        let stored = rw is_buy at made in
        rw (is_buy, e, found, wp, create_position, fresh, ct)
          (rw (stored, create_trade_doc, trade_of, so) refl)

-- The same over the documents of lawful collections.
module _ {N P Q O T : Type 0} (db : Db N P Q O T) (env : Env N)
    (la : IsLawful same_account db.accounts) (lq : IsLawful same_position db.positions)
    (lo : IsLawful same_order db.orders) (lt' : IsLawful no_clash db.trades) (order : Order N)
    (account : Account N) (price : N) (w : World N P Q O T) (is_buy : order.side ≡ buy) where
  open db.num use {of_ℕ, add, sub, mul, neg, le}

  -- A BUY of an account of which no document both has the account's id and covers the cost is
  -- rejected: the stored order says so, and no account, position or trade is changed.
  pub unaffordable_buy_is_rejected :
      find? (affords db env account (mul price order.quantity)) (la.docs w.accounts) ≡ none
      → let (r, w') = settle db env order account price w in
        (r ≡ err insufficient_cash)
        × (la.docs w'.accounts ≡ la.docs w.accounts)
        × (lo.docs w'.orders
            ≡ update_first
                (λ o. o.id == order.id)
                (λ _. rejection db env order insufficient_cash)
                (lo.docs w.orders))
        × (w'.positions ≡ w.positions)
        × (w'.trades ≡ w.trades)
  unaffordable_buy_is_rejected none_affords =
      let p = affords db env account (mul price order.quantity) in
      let f = inc_cash db.num (neg (mul price order.quantity)) in
      let missed = la.updated p f w.accounts ∙ ap (Option.map f) none_affords in
      let outcome = buy_short db env order account price w is_buy missed in
      rw outcome (
        refl,
        la.docs-update p f w.accounts ∙ update_first-none p f (la.docs w.accounts) none_affords,
        lo.docs-update _ _ w.orders,
        refl,
        refl,
      )
