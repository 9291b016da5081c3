-- ===== src/Portfolio/Execution/Races.antt =====
-- order-execution.service.ts: SELLs over the documents of lawful collections, one alone, and two at once.
use ai_trader_api.Base.{
  arith, ==_iff, ◌≡◌, refl, ap, sym, subst, ◌∙◌, ◌++◌, Bool, false, some, [], ◌∷◌, ◌==◌,
  if◌then◌else◌, find?, inl, inr, Bool-cases,
}
use ai_trader_api.Base.Action.{Result, ok, then_value}
use mathlib.Core.Option
use ai_trader_api.Base.Collection.{IsLawful, update_first, delete_first}
use ai_trader_api.Base.Updates.{find?-update_first, find?-holds}
use ai_trader_api.Portfolio.{
  Account, Order, Position, Trade, Db, World, sell, Reason, same_account, same_position, same_order,
  no_clash,
}
use ai_trader_api.Portfolio.Execution.{
  Env, Filled, settle, move_cash, after_move, create_trade, write_position, save_order, held_by,
  shrunk, filled_order,
}
use ai_trader_api.Portfolio.Execution.Accounting.{paid, with_fewer, executed_at_price, trade_at}
use ai_trader_api.Portfolio.Execution.Outcomes.{any-no_clash, saved, found_by_id}
use ai_trader_api.Portfolio.Execution.Sales.{
  earn, sold, sale, credited, reduced, after_sale, sell_moved, sale_booked, sale_filled,
  shrunk_position,
}

module _ {N P Q O T : Type 0} (db : Db N P Q O T) (account : Account N) where
  open db.num use {mul}

  -- Two calls at once: both cash movements come before anything else of the two.
  abbrev pub race :
      Env N
      → Env N
      → Order N
      → Order N
      → N
      → N
      → World N P Q O T
      → (Result Reason (Filled N) × Result Reason (Filled N)) × World N P Q O T
  race env env' order order' price price' w =
      let cost = mul price order.quantity in
      let cost' = mul price' order'.quantity in
      let (m, w1) = move_cash db order.side order account price cost w in
      let (m', w2) = move_cash db order'.side order' account price' cost' w1 in
      let (f, w3) = then_value (after_move db env order price cost) (m, w2) in
      let (f', w4) = then_value (after_move db env' order' price' cost') (m', w3) in ((f, f'), w4)

module _ {N P Q O T : Type 0} (db : Db N P Q O T) (la : IsLawful same_account db.accounts)
    (lq : IsLawful same_position db.positions) (lt' : IsLawful no_clash db.trades)
    (account : Account N) where
  open db.num use {of_ℕ, sub, mul, lt, eq}

  abbrev pub is_payee : Account N → Bool
  is_payee b = b.id == account.id

  -- A covered sale finds its account and its position.
  pub sell_moves :
      (order : Order N) (a : Account N) (price : N) (p : Position N) (w : World N P Q O T)
      → find? is_payee (la.docs w.accounts) ≡ some a
      → find? (held_by db account.id order.symbol) (lq.docs w.positions) ≡ some p
      → lt p.quantity order.quantity ≡ false
      → move_cash db sell order account price (mul price order.quantity) w ≡ (
        ok (sold db order price p (earn db order price p a)),
        record w { accounts = (credited db account order price p w.accounts).1 },
      )
  sell_moves order a price p w owned held enough =
      sell_moved db order account (earn db order price p a) price p w
        (lq.find_one_lem _ w.positions ∙ held) enough
        (la.updated is_payee (earn db order price p) w.accounts
          ∙ ap (Option.map (earn db order price p)) owned)

  module _ (env : Env N) where
    docs-reduced :
        (order : Order N) (price : N) (p : Position N) (positions : Q)
        → lq.docs (reduced db env order price p positions) ≡ (
            if eq (sub p.quantity order.quantity) (of_ℕ 0)
            then delete_first (λ q. q.id == p.id) (lq.docs positions)
            else update_first
                (λ q. q.id == p.id)
                (λ _. shrunk db env order price p)
                (lq.docs positions))
    docs-reduced order price p positions =
        elim (Bool-cases (eq (sub p.quantity order.quantity) (of_ℕ 0))) [
          | inl e ↦ rw e (lq.docs-delete_one _ positions)
          | inr e ↦ rw e (lq.docs-update _ _ positions)
        ]

    trade_is_stored :
        (t : Trade N) (trades : T) → (trades' : T) × (db.trades.create t trades ≡ some trades')
    trade_is_stored t trades = lt'.create_free t trades (any-no_clash t (lt'.docs trades))

    -- A position that is there by its id can be saved with fewer shares.
    shrunk_is_saved :
        (order : Order N) (price : N) (p x : Position N) (positions : Q)
        → find? (λ q. q.id == p.id) (lq.docs positions) ≡ some x
        → (shrunk_position db env order price p positions).0 ≡ some (shrunk db env order price p)
    shrunk_is_saved order price p x positions there =
        saved db lq (shrunk db env order price p) positions x there

    -- It is still there after a sale that leaves something.
    still_there :
        (order : Order N) (price : N) (p x : Position N) (positions : Q)
        → eq (sub p.quantity order.quantity) (of_ℕ 0) ≡ false
        → find? (λ q. q.id == p.id) (lq.docs positions) ≡ some x
        → find? (λ q. q.id == p.id) (lq.docs (reduced db env order price p positions))
          ≡ some (shrunk db env order price p)
    still_there order price p x positions left there =
        ap (find? (λ q. q.id == p.id)) (docs-reduced order price p positions)
        ∙ rw left (
            find?-update_first (λ q. q.id == p.id) (λ _. shrunk db env order price p)
              (lq.docs positions) x there (ground (arith, ==_iff p.id p.id)))

    sale_trade :
        (order : Order N) (price : N) (p : Position N)
        → order.side ≡ sell
        → sale db env order price p
          ≡ trade_at db.num price (mul (sub price p.average_cost) order.quantity) env.now order
    sale_trade order price p is_sell =
        ap
          (λ profit. record (trade_at db.num price (of_ℕ 0) env.now order) {
            realised_pnl = profit;
          })
          (rw is_sell refl)

    sale_answer :
        (order : Order N) (price : N) (p : Position N)
        → order.side ≡ sell
        → sale_filled db env order price p ≡ (record {
          order = executed_at_price db.num price env.now order;
          trade =
              trade_at db.num price (mul (sub price p.average_cost) order.quantity) env.now order;
        })
    sale_answer order price p is_sell =
        ap (λ t. record { order = filled_order db env order price; trade = t })
          (sale_trade order price p is_sell)

  -- A SELL that the held position covers, with no driver failure: the call answers the executed order
  -- and its trade, with the profit over the average cost; the account is paid the price times the
  -- quantity, and its profit grows by that of the trade; the position is deleted where nothing is left
  -- of it, and has fewer shares at the same cost where something is; the stored order is the executed
  -- one; one trade is added.
  pub covered_sell_fills :
      (env : Env N) (lo : IsLawful same_order db.orders) (order : Order N) (a : Account N)
      (price : N) (p : Position N) (w : World N P Q O T)
      → order.side ≡ sell
      → find? is_payee (la.docs w.accounts) ≡ some a
      → find? (held_by db account.id order.symbol) (lq.docs w.positions) ≡ some p
      → lt p.quantity order.quantity ≡ false
      → env.fails write_position ≡ false
      → env.fails create_trade ≡ false
      → env.fails save_order ≡ false
      → let (r, w') = settle db env order account price w in
        let trade =
          trade_at db.num price (mul (sub price p.average_cost) order.quantity) env.now order in
        (r ≡ ok (record { order = executed_at_price db.num price env.now order; trade = trade }))
        × (la.docs w'.accounts
            ≡ update_first is_payee
                (paid db.num price order.quantity p.average_cost)
                (la.docs w.accounts))
        × (lq.docs w'.positions ≡ (
            if eq (sub p.quantity order.quantity) (of_ℕ 0)
            then delete_first (λ q. q.id == p.id) (lq.docs w.positions)
            else update_first
                (λ q. q.id == p.id)
                (λ _. with_fewer db.num price order.quantity env.now p)
                (lq.docs w.positions)))
        × (lo.docs w'.orders
            ≡ update_first
                (λ o. o.id == order.id)
                (λ _. executed_at_price db.num price env.now order)
                (lo.docs w.orders))
        × (lt'.docs w'.trades ≡ lt'.docs w.trades ++ trade ∷ [])
  unfolding settle
  covered_sell_fills env lo order a price p w is_sell owned held enough wp ct so =
      let cost = mul price order.quantity in
      let (trades, made) = trade_is_stored env (sale db env order price p) w.trades in
      let (x, there) = found_by_id db lq _ p w.positions held in
      let paid_out = record w { accounts = (credited db account order price p w.accounts).1 } in
      let outcome : settle db env order account price w ≡ (
        ok (sale_filled db env order price p),
        after_sale db env order price p trades paid_out,
      ) =
        subst
          (λ side.
            then_value (after_move db env order price cost)
              (move_cash db side order account price cost w)
            ≡ (
              ok (sale_filled db env order price p),
              after_sale db env order price p trades paid_out,
            ))
          (sym is_sell)
          (rw (sell_moves order a price p w owned held enough) (
            sale_booked db env order (earn db order price p a) price p trades paid_out is_sell wp ct
              so made (λ left. shrunk_is_saved env order price p x w.positions there))) in
      rw outcome (
        ap ok (sale_answer env order price p is_sell),
        la.docs-update is_payee (earn db order price p) w.accounts,
        docs-reduced env order price p w.positions,
        lo.docs-update _ _ w.orders,
        lt'.created _ _ _ made
            ∙ ap (λ t. lt'.docs w.trades ++ t ∷ []) (sale_trade env order price p is_sell),
      )

  -- Two SELLs of one held position, or one SELL executed twice, where the position covers each by itself
  -- and both cash movements come before anything else of the two, and where the second, written last,
  -- sells all that was held if the first does: with no driver failure both fill, and the account is
  -- paid for both with the profit of both, also where the position does not cover the two together.
  pub racing_sells_both_fill :
      (env env' : Env N) (order order' : Order N) (a : Account N) (price price' : N)
      (p : Position N) (w : World N P Q O T)
      → order.side ≡ sell
      → order'.side ≡ sell
      → find? is_payee (la.docs w.accounts) ≡ some a
      → find? (held_by db account.id order.symbol) (lq.docs w.positions) ≡ some p
      → order'.symbol ≡ order.symbol
      → lt p.quantity order.quantity ≡ false
      → lt p.quantity order'.quantity ≡ false
      → (eq (sub p.quantity order'.quantity) (of_ℕ 0) ≡ false
          → eq (sub p.quantity order.quantity) (of_ℕ 0) ≡ false)
      → env.fails write_position ≡ false
      → env.fails create_trade ≡ false
      → env.fails save_order ≡ false
      → env'.fails write_position ≡ false
      → env'.fails create_trade ≡ false
      → env'.fails save_order ≡ false
      → let ((f, f'), w4) = race db account env env' order order' price price' w in
        (f
          ≡ ok (record {
            order = executed_at_price db.num price env.now order;
            trade =
                trade_at db.num price (mul (sub price p.average_cost) order.quantity) env.now order;
          }))
        × (f'
            ≡ ok (record {
              order = executed_at_price db.num price' env'.now order';
              trade =
                  trade_at db.num price'
                    (mul (sub price' p.average_cost) order'.quantity)
                    env'.now
                    order';
            }))
        × (la.docs w4.accounts
            ≡ update_first is_payee (paid db.num price' order'.quantity p.average_cost) (
                update_first is_payee
                  (paid db.num price order.quantity p.average_cost)
                  (la.docs w.accounts)))
  racing_sells_both_fill env env' order order' a price price' p w is_sell is_sell' owned held same
        enough enough' ends wp ct so wp' ct' so' =
      let cost = mul price order.quantity in
      let cost' = mul price' order'.quantity in
      let pay = earn db order price p in
      let w1 : World N P Q O T = record w {
        accounts = (credited db account order price p w.accounts).1;
      } in
      let w2 : World N P Q O T = record w1 {
        accounts = (credited db account order' price' p w1.accounts).1;
      } in
      let (trades, made) = trade_is_stored env (sale db env order price p) w.trades in
      let w3 = after_sale db env order price p trades w2 in
      let (trades', made') = trade_is_stored env' (sale db env' order' price' p) trades in
      let is_same = find?-holds is_payee (λ b. b) (la.docs w.accounts) a owned in
      let owned' : find? is_payee (la.docs w1.accounts) ≡ some (pay a) =
        rw (la.docs-update is_payee pay w.accounts)
          (find?-update_first is_payee pay (la.docs w.accounts) a owned is_same) in
      let held' : find? (held_by db account.id order'.symbol) (lq.docs w.positions) ≡ some p =
        subst (λ s. find? (held_by db account.id s) (lq.docs w.positions) ≡ some p) (sym same)
          held in
      let moved =
        subst
          (λ side.
            move_cash db side order account price cost w ≡ (ok (sold db order price p (pay a)), w1))
          (sym is_sell) (sell_moves order a price p w owned held enough) in
      let moved' =
        subst
          (λ side.
            move_cash db side order' account price' cost' w1
            ≡ (ok (sold db order' price' p (earn db order' price' p (pay a))), w2))
          (sym is_sell') (sell_moves order' (pay a) price' p w1 owned' held' enough') in
      let (x, there) = found_by_id db lq _ p w.positions held in
      let booked =
        sale_booked db env order (pay a) price p trades w2 is_sell wp ct so made
          (λ left. shrunk_is_saved env order price p x w.positions there) in
      let booked' =
        sale_booked db env' order' (earn db order' price' p (pay a)) price' p trades' w3 is_sell'
          wp' ct' so' made'
          (λ left.
            shrunk_is_saved env' order' price' p (shrunk db env order price p) w3.positions
              (still_there env order price p x w.positions (ends left) there)) in
      rw (moved, moved', booked, booked')
        (
          ap ok (sale_answer env order price p is_sell),
          ap ok (sale_answer env' order' price' p is_sell'),
          la.docs-update is_payee (earn db order' price' p) w1.accounts
              ∙ ap (update_first is_payee (earn db order' price' p))
                  (la.docs-update is_payee pay w.accounts),
        )
