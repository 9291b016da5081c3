-- ===== src/Portfolio/Accounts.antt =====
-- src/portfolio/portfolio-accounts.service.ts: the account, its reset, and the views of it.
pub mod Marks
pub mod Views
use ai_trader_api.Base.{
  ℕ, ⊤, ◌==◌, ◌+◌, ◌-◌, String, Bool, true, false, ◌&&◌, not, Option, none, some, List, [], ◌∷◌,
  str_eq, if◌then◌else◌, or_else, length, ltb, filter, min,
}
use ai_trader_api.Base.Action.{
  Result, ok, err, Action, pure, gets, or_throw, from_result, try_catch, ◌>>=◌, ◌>>◌, throw_if,
  modify,
}
use ai_trader_api.Base.Collection.{Collection}
use ai_trader_api.Base.Double.{Double}
use ai_trader_api.Portfolio.{
  Exchange, same_exchange, Reason, portfolio_not_found, duplicate_key, driver_failure, Account,
  Position, Order, Trade, Event, positions_update, Db, World, mark_stale_after_ms,
}
use ai_trader_api.Portfolio.Execution.{Env, write_position, save_position}

-- `DEFAULT_CAPITAL`.
abbrev pub default_capital : ℕ
default_capital = 100000

-- `PortfolioView`: the account's fields are those of `account`.
pub record PortfolioView (N : Type 0) : Type 0 where
  pub account : Account N
  pub positions : List (Position N)
  pub total_value : N
  pub unrealised_pnl : N
  pub total_pnl : N
  pub marks_as_of : Option ℕ
  pub marks_stale : Bool

-- `RefreshPricesResult`; `stale` is the length of `stale_symbols`.
pub record RefreshPricesResult (N : Type 0) : Type 0 where
  pub positions : List (Position N)
  pub refreshed : ℕ
  pub stale : ℕ
  pub stale_symbols : List String

-- The number of refreshed positions and the symbols of the others.
pub record Tally : Type 0 where
  pub refreshed : ℕ
  pub stale_symbols : List String

-- `reduce((sum, x) => sum + f(x), from)`.
abbrev pub sum_from : {N A : Type 0} → Double N → (A → N) → N → List A → N
sum_from num f acc [] = acc
sum_from num f acc (x ∷ xs) = sum_from num f (num.add acc (f x)) xs

-- `Math.min` of the instants that are set, if there are any.
abbrev pub oldest : {N : Type 0} → List (Position N) → Option ℕ
oldest [] = none
oldest (p ∷ ps) = elim p.updated_at [
  | none ↦ oldest ps
  | some t ↦ elim (oldest ps) [ none ↦ some t | some u ↦ some (min t u) ]
]

-- The key under which an account is looked up.
abbrev pub owned_by : {N : Type 0} → String → Exchange → Account N → Bool
owned_by user exchange a = str_eq a.user_id user && same_exchange a.exchange exchange

module _ {N P Q O T : Type 0} (db : Db N P Q O T) (env : Env N) where
  open db.num use {of_ℕ, add, sub, mul, lt}

  abbrev Request : Type 0 → Type 0
  Request = Action Reason (World N P Q O T)

  abbrev pub new_account : String → Exchange → Option N → Account N
  new_account user exchange capital =
      let initial = or_else capital (of_ℕ default_capital) in
      record {
        id = env.fresh_id;
        user_id = user;
        exchange = exchange;
        initial_capital = initial;
        cash_balance = initial;
        total_position_value = of_ℕ 0;
        realised_pnl = of_ℕ 0;
      }

  abbrev pub create_account : Account N → Request (Account N)
  create_account a w = elim (db.accounts.create a w.accounts) [
    | none ↦ (err duplicate_key, w)
    | some accounts ↦ (ok a, record w { accounts = accounts })
  ]

  unfoldable pub ensure_portfolio : String → Exchange → Option N → Request (Account N)
  ensure_portfolio user exchange capital = do
    existing ← gets (λ w. db.accounts.find_one (owned_by user exchange) w.accounts)
    elim existing [ some a ↦ pure a | none ↦ create_account (new_account user exchange capital) ]

  abbrev pub wiped : Account N → Account N
  wiped a = record a {
    cash_balance = a.initial_capital;
    realised_pnl = of_ℕ 0;
    total_position_value = of_ℕ 0;
  }

  -- The three deletions touch different collections, so their order does not matter.
  abbrev pub clear_books : Account N → String → Exchange → Request ⊤
  clear_books a user exchange = modify λ w. record w {
    positions = db.positions.delete_many (λ p. p.portfolio_id == a.id) w.positions;
    orders =
        db.orders.delete_many (λ o. str_eq o.user_id user && same_exchange o.exchange exchange)
          w.orders;
    trades =
        db.trades.delete_many (λ t. str_eq t.user_id user && same_exchange t.exchange exchange)
          w.trades;
  }

  abbrev pub save_account : Account N → Request ⊤
  save_account a = modify λ w. record w {
    accounts = (db.accounts.find_one_and_update (λ b. b.id == a.id) (λ _. a) w.accounts).1;
  }

  -- It answers the cash balance.
  pub reset_portfolio : String → Exchange → Request N
  reset_portfolio user exchange = do
    a ← ensure_portfolio user exchange none
    clear_books a user exchange
    save_account (wiped a)
    modify (λ w. record w { events = positions_update user [] ∷ w.events })
    pure a.initial_capital

  abbrev pub is_stale : Option ℕ → Bool
  is_stale none = false
  is_stale (some t) = ltb mark_stale_after_ms (env.now - t)

  abbrev pub view_of : Account N → List (Position N) → PortfolioView N
  view_of a positions =
      let unrealised = sum_from db.num (λ p. p.unrealised_pnl) (of_ℕ 0) positions in
      record {
        account = a;
        positions = positions;
        total_value =
            add a.cash_balance
              (sum_from db.num (λ p. mul p.quantity p.current_price) (of_ℕ 0) positions);
        unrealised_pnl = unrealised;
        total_pnl = add a.realised_pnl unrealised;
        marks_as_of = oldest positions;
        marks_stale = is_stale (oldest positions);
      }

  unfoldable pub get_portfolio : String → Exchange → Request (PortfolioView N)
  get_portfolio user exchange = do
    ensure_portfolio user exchange none
    a ←
        or_throw (← gets (λ w. db.accounts.find_one (owned_by user exchange) w.accounts))
          portfolio_not_found
    positions ← gets (λ w. db.positions.find (λ p. p.portfolio_id == a.id) w.positions)
    pure (view_of a positions)

  unfoldable pub open_positions_across_users : World N P Q O T → List (Position N)
  open_positions_across_users w = db.positions.find (λ p. lt (of_ℕ 0) p.quantity) w.positions

  abbrev pub marked : N → Position N → Position N
  marked ltp p = record p {
    current_price = ltp;
    unrealised_pnl = mul (sub ltp p.average_cost) p.quantity;
    updated_at = some env.now;
  }

  -- The `try` block of the loop.
  pub refresh_one : Position N → Request ⊤
  refresh_one p = do
    ltp ← from_result (env.quote p.symbol p.exchange)
    throw_if (env.fails write_position) driver_failure
    save_position db env (marked ltp p)

  abbrev pub count_one : Position N → Tally → Result Reason ⊤ → Tally
  count_one p t (ok _) = record t { refreshed = 1 + t.refreshed }
  count_one p t (err _) = record t { stale_symbols = p.symbol ∷ t.stale_symbols }

  -- The loop; the symbols of the tally are those of the list that could not be refreshed.
  pub refresh_each : List (Position N) → World N P Q O T → Tally × World N P Q O T
  refresh_each [] w = (record { refreshed = 0; stale_symbols = [] }, w)
  refresh_each (p ∷ ps) w =
      let (r, v) = refresh_one p w in let (t, u) = refresh_each ps v in (count_one p t r, u)

  pub refresh_position_prices : String → World N P Q O T → RefreshPricesResult N × World N P Q O T
  refresh_position_prices user w =
      let (t, v) = refresh_each (db.positions.find (λ p. str_eq p.user_id user) w.positions) w in
      let fresh = db.positions.find (λ p. str_eq p.user_id user) v.positions in
      (
        record {
          positions = fresh;
          refreshed = t.refreshed;
          stale = length t.stale_symbols;
          stale_symbols = t.stale_symbols;
        },
        record v { events = positions_update user fresh ∷ v.events },
      )
