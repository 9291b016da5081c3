-- ===== src/Portfolio/Risk/Gate.antt =====
-- risk-limits.service.ts: what the gate lets through, and what it leaves behind when it does not.
use ai_trader_api.Base.{
  ℕ, ⊤, ◌≡◌, refl, ◌≤◌, ◌+◌, inl, inr, false, none, some, ◌==◌, str_eq, if◌then◌else◌, length, any,
  arith, Bool-cases, Option-cases,
}
use ai_trader_api.Base.Action.{Result, ok, err, Result-cases}
use ai_trader_api.Portfolio.{Exchange, Reason, Account, Order, Db, World}
use ai_trader_api.Portfolio.Execution.{Env}
use ai_trader_api.Portfolio.Execution.Refusals.{rejection}
use ai_trader_api.Portfolio.Accounts.{owned_by, view_of, PortfolioView}
use ai_trader_api.Portfolio.Accounts.Views.{get_portfolio-found}
use ai_trader_api.Portfolio.Risk.{
  guard_buy_order, check_limits, state_from, blocked_reason, price_for, prospect, pct,
  open_risk_with, session_pnl,
}

module _ {N P Q O T : Type 0} (db : Db N P Q O T) (env : Env N) (order : Order N)
    (exchange : Exchange) (w : World N P Q O T) (account : Account N)
    (owned : db.accounts.find_one (owned_by order.user_id exchange) w.accounts ≡ some account) where
  open db.num use {of_ℕ, mul, neg, le, lt}

  abbrev pub view : PortfolioView N
  view = view_of db env account (db.positions.find (λ p. p.portfolio_id == account.id) w.positions)

  -- An order within the limits at a price.
  pub record IsAllowed (price : N) : Type 0 where
    pub priced : price_for db env order ≡ ok price
    pub covered : lt account.cash_balance (mul price order.quantity) ≡ false
    pub few :
        (if any (λ p. str_eq p.symbol order.symbol) view.positions
          then length view.positions
          else length view.positions + 1)
        ≤ 5
    pub no_loss :
        le
          (pct db.num view.total_value (session_pnl db env account.user_id account.exchange w))
          (neg (of_ℕ 3))
        ≡ false
    pub low_risk :
        lt (of_ℕ 3) (
          pct db.num view.total_value
            (open_risk_with db.num view.positions (some (prospect db env order price))))
        ≡ false

  blocked_reason-none :
      (pnl_pct risk_pct : N) (n : ℕ)
      → blocked_reason db.num pnl_pct n risk_pct ≡ none
      → (le pnl_pct (neg (of_ℕ 3)) ≡ false) × (n ≤ 5) × (lt (of_ℕ 3) risk_pct ≡ false)
  unfolding blocked_reason
  blocked_reason-none pnl_pct risk_pct n h = (ground arith, ground arith, ground arith)

  -- What holds of an outcome of the gate.
  abbrev pub Settles : Result Reason ⊤ × World N P Q O T → Type 0
  Settles (ok _, v) = (v ≡ w) × (price : N) × IsAllowed price
  Settles (err e, v) = v ≡ record w {
    orders =
        (db.orders.find_one_and_update (λ o. o.id == order.id) (λ _. rejection db env order e)
          w.orders).1;
  }

  check_limits-Settles :
      (price : N)
      → price_for db env order ≡ ok price
      → Settles (check_limits db env order price view w)
  unfolding check_limits state_from
  check_limits-Settles price priced =
      elim (Bool-cases (lt account.cash_balance (mul price order.quantity))) [
        | inl short ↦ rw short refl
        | inr covered ↦
            let reason =
              (state_from db env view (some (prospect db env order price)) w).blocked_reason in
            elim (Option-cases reason) [
              | inr (r, e) ↦ rw (covered, e) refl
              | inl e ↦
                  let (no_loss, few, low_risk) = blocked_reason-none _ _ _ e in
                  rw (covered, e)
                    (
                      refl,
                      price,
                      record {
                        priced = priced;
                        covered = covered;
                        few = few;
                        no_loss = no_loss;
                        low_risk = low_risk;
                      },
                    )
            ]
      ]

  -- The gate on an order of a user with an account. If it passes, nothing was written, the order has
  -- a price, its cost is within the cash, and with the order at most five positions are open, the
  -- risk is at most 3% and the loss of the session less than 3% of the account's value. If it
  -- refuses, the stored order is REJECTED for the reason thrown, and nothing else was written.
  pub guard_buy_order-Settles : Settles (guard_buy_order db env order exchange w)
  unfolding guard_buy_order
  guard_buy_order-Settles = elim (Result-cases (price_for db env order)) [
    | inr (r, e) ↦ rw e refl
    | inl (price, e) ↦
        rw (e, get_portfolio-found db env order.user_id exchange w account owned)
          (check_limits-Settles price e)
  ]
