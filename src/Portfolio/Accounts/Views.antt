-- ===== src/Portfolio/Accounts/Views.antt =====
-- portfolio-accounts.service.ts: the account of a user who has one, and what a reset leaves.
use ai_trader_api.Base.{
  ◌≡◌, refl, String, Option, none, some, [], ◌∷◌, ◌==◌, ◌&&◌, not, str_eq, filter, false, ap, ◌∙◌,
  find?, sym, List, arith,
}
use ai_trader_api.Base.Action.{ok}
use ai_trader_api.Base.Double.{Double}
use ai_trader_api.Base.Collection.{IsLawful, update_first}
use ai_trader_api.Base.Updates.{update_first-constant, find?-update_same}
use ai_trader_api.Portfolio.{
  Exchange, same_exchange, Account, Position, Event, Db, World, positions_update, same_account,
  same_position, same_order, no_clash,
}
use ai_trader_api.Portfolio.Execution.{Env}
use ai_trader_api.Portfolio.Accounts.{
  PortfolioView, owned_by, ensure_portfolio, get_portfolio, view_of, reset_portfolio, wiped,
}

module _ {N P Q O T : Type 0} (db : Db N P Q O T) (env : Env N) (user : String)
    (exchange : Exchange) (w : World N P Q O T) (account : Account N)
    (owned : db.accounts.find_one (owned_by user exchange) w.accounts ≡ some account) where
  pub ensure_portfolio-found :
      (capital : Option N) → ensure_portfolio db env user exchange capital w ≡ (ok account, w)
  unfolding ensure_portfolio
  ensure_portfolio-found capital = rw owned refl

  pub get_portfolio-found : get_portfolio db env user exchange w ≡ (
    ok (view_of db env account (db.positions.find (λ p. p.portfolio_id == account.id) w.positions)),
    w,
  )
  unfolding get_portfolio
  get_portfolio-found = rw (ensure_portfolio-found none, owned) refl

-- An account as it was opened, and what is shown of it.
module _ {N : Type 0} (num : Double N) where
  -- The account as it was opened.
  abbrev pub started_again : Account N → Account N
  started_again a = record a {
    cash_balance = a.initial_capital;
    realised_pnl = num.of_ℕ 0;
    total_position_value = num.of_ℕ 0;
  }

  -- What is shown of it.
  abbrev pub fresh_view : Account N → PortfolioView N
  fresh_view account = record {
    account = started_again account;
    positions = [];
    total_value = num.add account.initial_capital (num.of_ℕ 0);
    unrealised_pnl = num.of_ℕ 0;
    total_pnl = num.add (num.of_ℕ 0) (num.of_ℕ 0);
    marks_as_of = none;
    marks_stale = false;
  }

module _ {N P Q O T : Type 0} (db : Db N P Q O T) (env : Env N) (user : String)
    (exchange : Exchange) (w : World N P Q O T) (account : Account N)
    (owned : db.accounts.find_one (owned_by user exchange) w.accounts ≡ some account) where
  module _ (la : IsLawful same_account db.accounts) (lq : IsLawful same_position db.positions)
      (lo : IsLawful same_order db.orders) (lt' : IsLawful no_clash db.trades)
      (stored : find? (λ a. a.id == account.id) (la.docs w.accounts) ≡ some account) where
    restarted :
        la.docs
          (db.accounts.find_one_and_update
            (λ a. a.id == account.id)
            (λ _. wiped db env account)
            w.accounts).1
        ≡ update_first (λ a. a.id == account.id) (started_again db.num) (la.docs w.accounts)
    restarted =
        la.docs-update _ _ w.accounts
        ∙ update_first-constant (λ a. a.id == account.id) (started_again db.num) account
            (la.docs w.accounts) stored

    none_left :
        (ps : List (Position N))
        → filter
            (λ p. p.portfolio_id == account.id)
            (filter (λ p. not (p.portfolio_id == account.id)) ps)
          ≡ []
    none_left [] = refl
    none_left (p ∷ ps) = ground (arith, none_left ps)

    -- What is shown in the state that a reset leaves, with whatever orders, trades and events.
    shown_again :
        (orders : O) (trades : T) (events : List (Event N))
        → let w' : World N P Q O T = record {
          accounts =
              (db.accounts.find_one_and_update
                (λ a. a.id == account.id)
                (λ _. wiped db env account)
                w.accounts).1;
          positions = db.positions.delete_many (λ p. p.portfolio_id == account.id) w.positions;
          orders = orders;
          trades = trades;
          events = events;
        } in
          get_portfolio db env user exchange w' ≡ (ok (fresh_view db.num account), w')
    shown_again orders trades events =
        let w' : World N P Q O T = record {
          accounts =
              (db.accounts.find_one_and_update (λ a. a.id == account.id) (λ _. wiped db env account)
                w.accounts).1;
          positions = db.positions.delete_many (λ p. p.portfolio_id == account.id) w.positions;
          orders = orders;
          trades = trades;
          events = events;
        } in
        let mine : find? (owned_by user exchange) (la.docs w.accounts) ≡ some account =
          sym (la.find_one_lem (owned_by user exchange) w.accounts) ∙ owned in
        let owned' : db.accounts.find_one (owned_by user exchange) w'.accounts
            ≡ some (started_again db.num account) =
          la.find_one_lem (owned_by user exchange) w'.accounts
          ∙ ap (find? (owned_by user exchange)) restarted
          ∙ find?-update_same (λ a. a.id == account.id) (owned_by user exchange)
              (started_again db.num) (λ a. refl) (la.docs w.accounts) account stored mine in
        let empty : db.positions.find (λ p. p.portfolio_id == account.id) w'.positions ≡ [] =
          lq.find_lem _ w'.positions
          ∙ ap (filter (λ p. p.portfolio_id == account.id)) (lq.docs-delete_many _ w.positions)
          ∙ none_left (lq.docs w.positions) in
        get_portfolio-found db env user exchange w' (started_again db.num account) owned'
        ∙ ap (λ ps. (ok (view_of db env (started_again db.num account) ps), w')) empty

    -- A reset of an account that exists, and of whose id there is one document: it answers the starting
    -- capital; the account's cash is that capital again and its profit zero; no position of the
    -- account, and no order or trade of the user on the exchange, is left; all other documents are as
    -- they were; the user is sent an empty list of positions; and the account that is shown next has
    -- the starting capital, no position and no profit.
    pub reset_portfolio_lem :
        let (r, w') = reset_portfolio db env user exchange w in
        (r ≡ ok account.initial_capital)
        × (la.docs w'.accounts
            ≡ update_first (λ a. a.id == account.id) (started_again db.num) (la.docs w.accounts))
        × (lq.docs w'.positions
            ≡ filter (λ p. not (p.portfolio_id == account.id)) (lq.docs w.positions))
        × (lo.docs w'.orders
            ≡ filter
                (λ o. not (str_eq o.user_id user && same_exchange o.exchange exchange))
                (lo.docs w.orders))
        × (lt'.docs w'.trades
            ≡ filter
                (λ t. not (str_eq t.user_id user && same_exchange t.exchange exchange))
                (lt'.docs w.trades))
        × (w'.events ≡ positions_update user [] ∷ w.events)
        × (get_portfolio db env user exchange w' ≡ (ok (fresh_view db.num account), w'))
    unfolding reset_portfolio
    reset_portfolio_lem =
        let w' = (reset_portfolio db env user exchange w).1 in
        rw (ensure_portfolio-found db env user exchange w account owned none) (
          refl,
          restarted,
          lq.docs-delete_many _ w.positions,
          lo.docs-delete_many _ w.orders,
          lt'.docs-delete_many _ w.trades,
          refl,
          shown_again _ _ _,
        )
