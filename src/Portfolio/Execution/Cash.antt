-- ===== src/Portfolio/Execution/Cash.antt =====
-- order-execution.service.ts: account balances under the execution of a BUY.
use ai_trader_api.Base.{
  ⊤, ◌≡◌, refl, sym, ap, ◌∙◌, subst, inl, inr, Bool, true, ◌&&◌, List, [], ◌∷◌, ◌==◌, arith,
  Bool-cases, Option-cases, All,
}
use ai_trader_api.Base.Action.{
  Result, ok, err, then_value-cases, recover-cases, then_value, throw_if, try_catch,
}
use ai_trader_api.Base.Collection.{IsLawful, update_first}
use ai_trader_api.Base.Double.{Double}
use ai_trader_api.Portfolio.{
  Account, Order, Trade, Position, Reason, Db, World, same_account, buy, driver_failure,
}
use ai_trader_api.Portfolio.Execution.{
  Env, Moved, inc_cash, inc_both, settle, after_move, move_cash, buy_cash, book, write_position_for,
  upsert_position, save_position, grown, finish, undo, compensate_cash, held_by, opened,
  write_position, create_trade, restore_cash, save_order, trade_of, create_trade_doc,
  create_position,
}

module _ {N : Type 0} (num : Double N) where
  open num use {of_ℕ, add, sub, mul, neg, le}

  abbrev pub IsSolvent : Account N → Type 0
  IsSolvent a = le (of_ℕ 0) a.cash_balance ≡ true

  -- What a conditional update that keeps solvency where its test holds does to all accounts.
  update_first-All :
      (p : Account N → Bool) (f : Account N → Account N) (docs : List (Account N))
      → ((a : Account N) → p a ≡ true → IsSolvent a → IsSolvent (f a))
      → All IsSolvent docs
      → All IsSolvent (update_first p f docs)
  update_first-All p f [] keep h = tt
  update_first-All p f (a ∷ docs) keep h = elim (Bool-cases (p a)) [
    | inl e ↦ rw e (keep a e h.0, h.1)
    | inr e ↦ rw e (h.0, update_first-All p f docs keep h.1)
  ]

module _ {N P Q O T : Type 0} (db : Db N P Q O T) (env : Env N)
    (la : IsLawful same_account db.accounts) where
  open db.num use {of_ℕ, add, sub, mul, neg, le}

  abbrev pub AllSolvent : World N P Q O T → Type 0
  AllSolvent w = All (IsSolvent db.num) (la.docs w.accounts)

  then_value-keeps :
      {A B : Type 0} (accounts : P) (f : A → World N P Q O T → Result Reason B × World N P Q O T)
      (p : Result Reason A × World N P Q O T)
      → p.1.accounts ≡ accounts
      → ((a : A) (v : World N P Q O T) → v.accounts ≡ accounts → (f a v).1.accounts ≡ accounts)
      → (then_value f p).1.accounts ≡ accounts
  then_value-keeps accounts f (ok a, v) h k = k a v h
  then_value-keeps accounts f (err e, v) h k = h

  create_position-keeps :
      (p : Position N) (w : World N P Q O T) → (create_position db env p w).1.accounts ≡ w.accounts
  create_position-keeps p w = elim (Option-cases (db.positions.create p w.positions)) [
    | inl e ↦ rw (e, create_position) refl
    | inr (s, e) ↦ rw (e, create_position) refl
  ]

  create_trade-keeps :
      (t : Trade N) (w : World N P Q O T) → (create_trade_doc db env t w).1.accounts ≡ w.accounts
  create_trade-keeps t w = elim (Option-cases (db.trades.create t w.trades)) [
    | inl e ↦ rw (e, create_trade_doc) refl
    | inr (s, e) ↦ rw (e, create_trade_doc) refl
  ]

  save_position-keeps :
      (p : Position N) (w : World N P Q O T) → (save_position db env p w).1.accounts ≡ w.accounts
  save_position-keeps p w =
      elim (Option-cases
        (db.positions.find_one_and_update (λ q. q.id == p.id) (λ _. p) w.positions).0) [
          | inl e ↦ rw (e, save_position) refl
          | inr (q, e) ↦ rw (e, save_position) refl
        ]

  upsert_position-keeps :
      (order : Order N) (price : N) (account : Account N) (w : World N P Q O T)
      → (upsert_position db env order price account w).1.accounts ≡ w.accounts
  unfolding upsert_position
  upsert_position-keeps order price account w = elim (Bool-cases (env.fails write_position)) [
    | inl e ↦ rw e refl
    | inr e ↦
        elim (Option-cases
          (db.positions.find_one (held_by db account.id order.symbol) w.positions)) [
            | inl none' ↦
                rw (e, none') (create_position-keeps (opened db env order price account) w)
            | inr (p, found) ↦ rw (e, found) (save_position-keeps (grown db env order price p) w)
          ]
  ]

  book_trade-keeps :
      (t : Trade N) (v : World N P Q O T)
      → (then_value
          (λ (_ : ⊤). create_trade_doc db env t)
          (throw_if (env.fails create_trade) driver_failure v)).1.accounts
        ≡ v.accounts
  book_trade-keeps t v = elim (Bool-cases (env.fails create_trade)) [
    | inl e ↦ rw e refl
    | inr e ↦ rw e (create_trade-keeps t v)
  ]

  finish-keeps :
      (order : Order N) (price : N) (trade : Trade N) (w : World N P Q O T)
      → (finish db env order price trade w).1.accounts ≡ w.accounts
  unfolding finish
  finish-keeps order price trade w = elim (Bool-cases (env.fails save_order)) [
    | inl e ↦ rw e refl
    | inr e ↦ rw e refl
  ]

  module _ (order : Order N) (is_buy : order.side ≡ buy) (price : N) where
    book-keeps :
        (moved : Moved N) (w : World N P Q O T)
        → (book db env order price moved w).1.accounts ≡ w.accounts
    unfolding book write_position_for
    book-keeps moved w =
        then_value-keeps w.accounts _ (write_position_for db env order.side order price moved w)
          (subst
            (λ side. (write_position_for db env side order price moved w).1.accounts ≡ w.accounts)
            (sym is_buy) (upsert_position-keeps order price moved.account w))
          (λ _ v same. book_trade-keeps (trade_of db env order price moved.sell_avg_cost) v ∙ same)

    -- Arithmetic that the debit and its compensation rely on.
    module _
        (pays : (a : N)
          → le (mul price order.quantity) a ≡ true
          → le (of_ℕ 0) (add a (neg (mul price order.quantity))) ≡ true)
        (returns : (a : N)
          → le (of_ℕ 0) a ≡ true
          → le (of_ℕ 0) (add a (mul price order.quantity)) ≡ true) where
      undo-AllSolvent :
          (moved : Moved N) (e : Reason) (w : World N P Q O T)
          → AllSolvent w
          → AllSolvent (undo db env {A = Trade N} order (mul price order.quantity) moved e w).1
      unfolding undo compensate_cash
      undo-AllSolvent moved e w h = elim (Bool-cases (env.fails restore_cash)) [
        | inl off ↦ rw off h
        | inr on ↦
            rw (on, is_buy)
              (subst (All (IsSolvent db.num)) (sym (la.docs-update _ _ w.accounts)) (
                update_first-All db.num (λ a. a.id == moved.account.id)
                  (inc_both db.num (mul price order.quantity) (neg moved.realised_pnl))
                  (la.docs w.accounts) (λ a _ solvent. returns a.cash_balance solvent) h))
      ]

      carried : (v w : World N P Q O T) → v.accounts ≡ w.accounts → AllSolvent w → AllSolvent v
      carried v w same h =
          subst (λ accounts. All (IsSolvent db.num) (la.docs accounts)) (sym same) h

      try-AllSolvent :
          (moved : Moved N) (w : World N P Q O T)
          → AllSolvent w
          → AllSolvent
              (try_catch
                (book db env order price moved)
                (undo db env order (mul price order.quantity) moved)
                w).1
      try-AllSolvent moved w h =
          recover-cases (λ r. AllSolvent r.1) (undo db env order (mul price order.quantity) moved)
            (book db env order price moved w)
            (λ trade v e. carried v w (ap (λ r. r.1.accounts) (sym e) ∙ book-keeps moved w) h)
            (λ reason v e.
              undo-AllSolvent moved reason v
                (carried v w (ap (λ r. r.1.accounts) (sym e) ∙ book-keeps moved w) h))

      after_move-AllSolvent :
          (moved : Moved N) (w : World N P Q O T)
          → AllSolvent w
          → AllSolvent (after_move db env order price (mul price order.quantity) moved w).1
      unfolding after_move
      after_move-AllSolvent moved w h =
          then_value-cases (λ r. AllSolvent r.1) (finish db env order price)
            (try_catch (book db env order price moved)
              (undo db env order (mul price order.quantity) moved) w)
            (λ trade v e.
              carried (finish db env order price trade v).1 v (finish-keeps order price trade v)
                (subst (λ r. AllSolvent r.1) e (try-AllSolvent moved w h)))
            (λ reason v e. subst (λ r. AllSolvent r.1) e (try-AllSolvent moved w h))

      buy_cash-AllSolvent :
          (account : Account N) (w : World N P Q O T)
          → AllSolvent w
          → AllSolvent (buy_cash db order account (mul price order.quantity) w).1
      unfolding buy_cash
      buy_cash-AllSolvent account w h =
          let cost = mul price order.quantity in
          let p = λ (a : Account N). a.id == account.id && le cost a.cash_balance in
          let f = inc_cash db.num (neg cost) in
          let after : All (IsSolvent db.num)
              (la.docs (db.accounts.find_one_and_update p f w.accounts).1) =
            subst (All (IsSolvent db.num)) (sym (la.docs-update p f w.accounts)) (
              update_first-All db.num p f (la.docs w.accounts)
                (λ a both _. pays a.cash_balance (ground (arith, both))) h) in
          elim (Option-cases (db.accounts.find_one_and_update p f w.accounts).0) [
            | inl e ↦ rw e after
            | inr (a, e) ↦ rw e after
          ]

      -- If a debit that the cash covers leaves no debt, and adding the cost to a balance without debt
      -- leaves none, then no outcome of executing a BUY, refusals and failures included, leaves an
      -- account in debt where none was before.
      pub buy-AllSolvent :
          (account : Account N) (w : World N P Q O T)
          → AllSolvent w
          → AllSolvent (settle db env order account price w).1
      unfolding settle move_cash
      buy-AllSolvent account w h =
          let cost = mul price order.quantity in
          let moved_cash =
            subst (λ side. AllSolvent (move_cash db side order account price cost w).1) (sym is_buy)
              (buy_cash-AllSolvent account w h) in
          then_value-cases (λ r. AllSolvent r.1) (after_move db env order price cost)
            (move_cash db order.side order account price cost w)
            (λ moved v e. after_move-AllSolvent moved v (subst (λ r. AllSolvent r.1) e moved_cash))
            (λ reason v e. subst (λ r. AllSolvent r.1) e moved_cash)
