-- ===== src/Portfolio/Execution/Fills.antt =====
-- order-execution.service.ts: what has held of an order that `executeOrder` reports as filled.
use ai_trader_api.Base.{
  ℕ, ◌≡◌, subst, Option-cases, Bool-cases, inl, inr, refl, String, true, false, Option, none, some,
  ◌==◌, arith,
}
use ai_trader_api.Base.Action.{
  Result, ok, err, Answers, Result-cases, then_value, then_value-cases, try_catch,
}
use ai_trader_api.Portfolio.{Reason, Db, World, Order, Account, Trade, is_pending, limit}
use ai_trader_api.Portfolio.Execution.{
  reaches, fill_at_market, finish, undo, after_move, Env, Filled, is_stranger, is_reachable,
  move_cash, book, account_for, settle, execute_order, filled_order, save_order,
}

module _ {N P Q O T : Type 0} (db : Db N P Q O T) (env : Env N) where
  -- The order was found pending, was the caller's, could be priced, and its limit was reached; it
  -- comes back executed at that price, and no other.
  pub record IsFill (order_id : ℕ) (caller : Option String) (w : World N P Q O T) (f : Filled N)
      : Type 0 where
    pub order : Order N
    pub price : N
    pub found : db.orders.find_one (λ o. o.id == order_id) w.orders ≡ some order
    pub own : is_stranger caller order.user_id ≡ false
    pub open_order : is_pending order.status ≡ true
    pub quoted : env.quote order.symbol order.exchange ≡ ok price
    pub reached :
        (bound : N)
        → order.type ≡ limit
        → order.limit_price ≡ some bound
        → db.num.truthy bound ≡ true
        → reaches db.num order.side price bound ≡ true
    pub filled : f.order ≡ filled_order db env order price

  abbrev Reports : Order N → N → Result Reason (Filled N) × World N P Q O T → Type 0
  Reports order price = Answers (λ f w'. f.order ≡ filled_order db env order price)

  finish-Reports :
      (order : Order N) (price : N) (trade : Trade N) (w : World N P Q O T)
      → Reports order price (finish db env order price trade w)
  unfolding finish
  finish-Reports order price trade w = elim (Bool-cases (env.fails save_order)) [
    | inl e ↦ rw e tt
    | inr e ↦ rw e refl
  ]

  settle-Reports :
      (order : Order N) (account : Account N) (price : N) (w : World N P Q O T)
      → Reports order price (settle db env order account price w)
  unfolding settle after_move
  settle-Reports order account price w =
      let cost = db.num.mul price order.quantity in
      then_value-cases (Reports order price) (after_move db env order price cost)
        (move_cash db order.side order account price cost w)
        (λ moved v _.
          then_value-cases (Reports order price) (finish db env order price)
            (try_catch (book db env order price moved) (undo db env order cost moved) v)
            (λ trade v' _. finish-Reports order price trade v') (λ _ _ _. tt))
        (λ _ _ _. tt)

  -- The limit test, read off the order.
  limit-reached :
      (order : Order N) (price bound : N)
      → is_reachable db.num order price ≡ true
      → order.type ≡ limit
      → order.limit_price ≡ some bound
      → db.num.truthy bound ≡ true
      → reaches db.num order.side price bound ≡ true
  unfolding is_reachable
  limit-reached order price bound h t b z = ground arith

  module _ (order_id : ℕ) (caller : Option String) (w : World N P Q O T) where
    abbrev Fills : Result Reason (Filled N) × World N P Q O T → Type 0
    Fills = Answers (λ f w'. IsFill order_id caller w f)

    module _ (order : Order N)
        (found : db.orders.find_one (λ o. o.id == order_id) w.orders ≡ some order)
        (own : is_stranger caller order.user_id ≡ false)
        (open_order : is_pending order.status ≡ true) where
      Reports-Fills :
          (price : N)
          → env.quote order.symbol order.exchange ≡ ok price
          → is_reachable db.num order price ≡ true
          → (r : Result Reason (Filled N) × World N P Q O T) → Reports order price r
          → Fills r
      Reports-Fills price quoted reached (ok f, v) filled = record {
        order = order;
        price = price;
        found = found;
        own = own;
        open_order = open_order;
        quoted = quoted;
        reached = λ bound t b z. limit-reached order price bound reached t b z;
        filled = filled;
      }
      Reports-Fills price quoted reached (err e, v) filled = tt

      fill_at_market-Fills :
          (account : Account N) (v : World N P Q O T)
          → Fills (fill_at_market db env order account v)
      unfolding fill_at_market
      fill_at_market-Fills account v = elim (Result-cases (env.quote order.symbol order.exchange)) [
        | inr (e, failed) ↦ rw failed tt
        | inl (price, quoted) ↦ rw quoted (elim (Bool-cases (is_reachable db.num order price)) [
          | inr e ↦ rw e tt
          | inl reached ↦
              rw reached
                (Reports-Fills price quoted reached _ (settle-Reports order account price v))
        ])
      ]

      account_for-Fills :
          (account : Option (Account N))
          → Fills (then_value (fill_at_market db env order) (account_for db env order account w))
      account_for-Fills (some account) = fill_at_market-Fills account w
      account_for-Fills none =
          elim (Option-cases (db.accounts.find_one (λ a. a.id == order.portfolio_id) w.accounts)) [
            | inl e ↦ rw e tt
            | inr (account, e) ↦ rw e (fill_at_market-Fills account w)
          ]

    execute_order-Fills :
        (account : Option (Account N)) → Fills (execute_order db env order_id account caller w)
    unfolding execute_order
    execute_order-Fills account =
        elim (Option-cases (db.orders.find_one (λ o. o.id == order_id) w.orders)) [
          | inl e ↦ rw e tt
          | inr (order, found) ↦ rw found (elim (Bool-cases (is_stranger caller order.user_id)) [
            | inl e ↦ rw e tt
            | inr own ↦ rw own (elim (Bool-cases (is_pending order.status)) [
              | inr e ↦ rw e tt
              | inl open_order ↦
                  rw open_order (account_for-Fills order found own open_order account)
            ])
          ])
        ]

    -- If `executeOrder` reports a fill, the order was stored, pending and not a stranger's; the
    -- market gave a price; for a LIMIT order with a limit that is not zero the price is no worse
    -- than the limit; and the order comes back executed, now, at that price.
    pub execute_order-IsFill :
        (account : Option (Account N)) (f : Filled N) (w' : World N P Q O T)
        → execute_order db env order_id account caller w ≡ (ok f, w')
        → IsFill order_id caller w f
    execute_order-IsFill account f w' e = subst Fills e (execute_order-Fills account)
