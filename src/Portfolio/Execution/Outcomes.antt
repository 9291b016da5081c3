-- ===== src/Portfolio/Execution/Outcomes.antt =====
-- order-execution.service.ts: the two ends of a BUY whose debit went through, over the documents of
-- lawful collections, in the terms of Accounting.
use ai_trader_api.Base.{
  ◌≡◌, ◌∙◌, ap, refl, Bool, true, false, Option, none, some, List, [], ◌∷◌, ◌==◌, find?, any, ◌++◌,
  ==_iff, eq_iff, arith,
}
use ai_trader_api.Base.Action.{ok, err}
use ai_trader_api.Base.Collection.{IsLawful, update_first}
use mathlib.Core.Option
use ai_trader_api.Base.Updates.{
  update_first-undo, find?-and, find?-holds, find?-meets, update_first-and,
}
use ai_trader_api.Portfolio.{
  Account, Order, Position, Trade, Db, World, buy, driver_failure, same_account, same_position,
  same_order, no_clash,
}
use ai_trader_api.Portfolio.Execution.{
  Env, settle, create_trade, write_position, restore_cash, save_order, inc_cash, inc_both, held_by,
  grown, opened, trade_of, filled_order,
}
use ai_trader_api.Portfolio.Execution.Accounting.{
  paying, with_more, first_shares, executed_at_price, trade_at,
}
use ai_trader_api.Portfolio.Execution.Refusals.{
  affords, buy_answer, buy_unbooked, buy_booked, buy_opened,
}

pub any-no_clash : {N : Type 0} (t : Trade N) (ts : List (Trade N)) → any (no_clash t) ts ≡ false
any-no_clash t [] = refl
any-no_clash t (x ∷ ts) = any-no_clash t ts

-- Where no position of the account in the symbol is held, the unique index lets a first one in.
any-same_position :
    {N P Q O T : Type 0} (db : Db N P Q O T) (new : Position N) (ps : List (Position N))
    → find? (held_by db new.portfolio_id new.symbol) ps ≡ none
    → any (same_position new) ps ≡ false
any-same_position db new [] h = refl
any-same_position db new (p ∷ ps) h = ground (
  arith,
  eq_iff new.symbol p.symbol,
  eq_iff p.symbol new.symbol,
  ==_iff new.portfolio_id p.portfolio_id,
  ==_iff p.portfolio_id new.portfolio_id,
  any-same_position db new ps,
)

-- A position that a query finds can be saved.
module _ {N P Q O T : Type 0} (db : Db N P Q O T) (lq : IsLawful same_position db.positions) where
  pub saved :
      (new : Position N) (positions : Q) (x : Position N)
      → find? (λ q. q.id == new.id) (lq.docs positions) ≡ some x
      → (db.positions.find_one_and_update (λ q. q.id == new.id) (λ _. new) positions).0 ≡ some new
  saved new positions x e = lq.updated _ _ positions ∙ ap (Option.map (λ _. new)) e

  pub found_by_id :
      (test : Position N → Bool) (p : Position N) (positions : Q)
      → find? test (lq.docs positions) ≡ some p
      → (x : Position N) × (find? (λ q. q.id == p.id) (lq.docs positions) ≡ some x)
  found_by_id test p positions e =
      find?-meets test (λ q. q.id == p.id) (lq.docs positions) p e
        (ground (arith, ==_iff p.id p.id))

module _ {N P Q O T : Type 0} (db : Db N P Q O T) (env : Env N)
    (la : IsLawful same_account db.accounts) (lq : IsLawful same_position db.positions)
    (lo : IsLawful same_order db.orders) (lt' : IsLawful no_clash db.trades) (order : Order N)
    (account : Account N) (price : N) (w : World N P Q O T) (is_buy : order.side ≡ buy)
    (a : Account N) (owned : find? (λ b. b.id == account.id) (la.docs w.accounts) ≡ some a)
    (covered : db.num.le (db.num.mul price order.quantity) a.cash_balance ≡ true) where
  open db.num use {of_ℕ, add, sub, mul, neg, le}

  abbrev pay : Account N → Account N
  pay = inc_cash db.num (neg (mul price order.quantity))

  abbrev is_payer : Account N → Bool
  is_payer = affords db env account (mul price order.quantity)

  payer : find? is_payer (la.docs w.accounts) ≡ some a
  payer =
      find?-and (λ b. b.id == account.id) (λ b. le (mul price order.quantity) b.cash_balance)
        (la.docs w.accounts) a owned covered

  debited : (db.accounts.find_one_and_update is_payer pay w.accounts).0 ≡ some (pay a)
  debited = la.updated is_payer pay w.accounts ∙ ap (Option.map pay) payer

  docs-debited :
      la.docs (db.accounts.find_one_and_update is_payer pay w.accounts).1
      ≡ update_first (λ b. b.id == account.id) pay (la.docs w.accounts)
  docs-debited =
      la.docs-update is_payer pay w.accounts
      ∙ update_first-and (λ b. b.id == account.id)
          (λ b. le (mul price order.quantity) b.cash_balance) pay (la.docs w.accounts) a owned
          covered

  is_same : (a.id == account.id) ≡ true
  is_same = find?-holds (λ b. b.id == account.id) (λ b. b) (la.docs w.accounts) a owned

  -- A BUY earns nothing.
  buy_trade : trade_of db env order price (of_ℕ 0) ≡ trade_at db.num price (of_ℕ 0) env.now order
  buy_trade =
      ap (λ profit. record (trade_at db.num price (of_ℕ 0) env.now order) { realised_pnl = profit })
        (rw is_buy refl)

  answer : buy_answer db env order account price w is_buy ≡ (record {
    order = executed_at_price db.num price env.now order;
    trade = trade_at db.num price (of_ℕ 0) env.now order;
  })
  answer = ap (λ t. record { order = filled_order db env order price; trade = t }) buy_trade

  trades_with :
      (trades trades' : T)
      → db.trades.create (trade_of db env order price (of_ℕ 0)) trades ≡ some trades'
      → lt'.docs trades' ≡ lt'.docs trades ++ trade_at db.num price (of_ℕ 0) env.now order ∷ []
  trades_with trades trades' made =
      lt'.created _ trades trades' made ∙ ap (λ t. lt'.docs trades ++ t ∷ []) buy_trade

  -- A covered BUY, with no driver failure: the call answers the executed order and its trade; the account
  -- has paid the price times the quantity; the shares are added to those that are held, at the average
  -- cost of all of them, or are a new position where none are held; the stored order is the executed
  -- one; one trade is added.
  pub covered_buy_fills :
      (held : Option (Position N))
      → find? (held_by db a.id order.symbol) (lq.docs w.positions) ≡ held
      → env.fails write_position ≡ false
      → env.fails create_trade ≡ false
      → env.fails save_order ≡ false
      → let (r, w') = settle db env order account price w in
        (r
          ≡ ok (record {
            order = executed_at_price db.num price env.now order;
            trade = trade_at db.num price (of_ℕ 0) env.now order;
          }))
        × (la.docs w'.accounts
            ≡ update_first
                (λ b. b.id == account.id)
                (paying db.num price order.quantity)
                (la.docs w.accounts))
        × (lq.docs w'.positions ≡ elim held [
          | none ↦
              lq.docs w.positions ++ first_shares db.num env.fresh_id a.id price env.now order ∷ []
          | some p ↦
              update_first
                (λ q. q.id == p.id)
                (λ _. with_more db.num price order.quantity order.stop_loss env.now p)
                (lq.docs w.positions)
        ])
        × (lo.docs w'.orders
            ≡ update_first
                (λ o. o.id == order.id)
                (λ _. executed_at_price db.num price env.now order)
                (lo.docs w.orders))
        × (lt'.docs w'.trades
            ≡ lt'.docs w.trades ++ trade_at db.num price (of_ℕ 0) env.now order ∷ [])
  covered_buy_fills (some p) held wp ct so =
      let trade = trade_of db env order price (of_ℕ 0) in
      let (trades, made) =
        lt'.create_free trade w.trades (any-no_clash trade (lt'.docs w.trades)) in
      let found = lq.find_one_lem _ w.positions ∙ held in
      let (x, there) = found_by_id db lq _ p w.positions held in
      let kept = saved db lq (grown db env order price p) w.positions x there in
      rw
        (buy_booked db env order account price w is_buy (pay a) p trades debited found wp ct so made
          kept)
        (
          ap ok answer,
          docs-debited,
          lq.docs-update _ _ w.positions,
          lo.docs-update _ _ w.orders,
          trades_with _ _ made,
        )
  covered_buy_fills none held wp ct so =
      let trade = trade_of db env order price (of_ℕ 0) in
      let new = opened db env order price (pay a) in
      let (trades, made) =
        lt'.create_free trade w.trades (any-no_clash trade (lt'.docs w.trades)) in
      let found = lq.find_one_lem _ w.positions ∙ held in
      let (positions, fresh) =
        lq.create_free new w.positions (any-same_position db new (lq.docs w.positions) held) in
      rw
        (buy_opened db env order account price w is_buy (pay a) positions trades debited found wp ct
          so made fresh)
        (
          ap ok answer,
          docs-debited,
          lq.created _ _ _ fresh,
          lo.docs-update _ _ w.orders,
          trades_with _ _ made,
        )

  -- A covered BUY of a symbol that is held, where storing the trade fails and compensation goes
  -- through, in arithmetic that is exact at these amounts: the call fails, every account is as it
  -- was, the order is still the pending one and no trade is stored, but the shares were added to those
  -- that are held, though they are not paid for.
  pub failed_trade_keeps_shares :
      (p : Position N)
      → find? (held_by db a.id order.symbol) (lq.docs w.positions) ≡ some p
      → env.fails write_position ≡ false
      → env.fails create_trade ≡ true
      → env.fails restore_cash ≡ false
      → add (add a.cash_balance (neg (mul price order.quantity))) (mul price order.quantity)
        ≡ a.cash_balance
      → add a.realised_pnl (neg (of_ℕ 0)) ≡ a.realised_pnl
      → let (r, w') = settle db env order account price w in
        (r ≡ err driver_failure)
        × (la.docs w'.accounts ≡ la.docs w.accounts)
        × (w'.orders ≡ w.orders)
        × (w'.trades ≡ w.trades)
        × (lq.docs w'.positions
            ≡ update_first
                (λ q. q.id == p.id)
                (λ _. with_more db.num price order.quantity order.stop_loss env.now p)
                (lq.docs w.positions))
  failed_trade_keeps_shares p held wp ct rc cash pnl =
      let g = inc_both db.num (mul price order.quantity) (neg (of_ℕ 0)) in
      let owner = (==_iff _ _).0 is_same in
      let restored : g (pay a) ≡ a = rw (cash, pnl) refl in
      let back =
        la.docs-update (λ b. b.id == (pay a).id) g _
        ∙ rw (docs-debited, owner)
            (update_first-undo (λ b. b.id == account.id) pay g (la.docs w.accounts) a owned is_same
              restored) in
      let found = lq.find_one_lem _ w.positions ∙ held in
      let (x, there) = found_by_id db lq _ p w.positions held in
      let kept = saved db lq (grown db env order price p) w.positions x there in
      rw (buy_unbooked db env order account price w is_buy (pay a) p debited found wp ct rc kept)
        (refl, back, refl, refl, lq.docs-update _ _ w.positions)
