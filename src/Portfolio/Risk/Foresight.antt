-- ===== src/Portfolio/Risk/Foresight.antt =====
-- risk-limits.service.ts: what the state that is shown says of orders to come.
use ai_trader_api.Base.{
  ℕ, ⊤, ◌≡◌, ◌≢◌, refl, ap, ◌∙◌, ◌<◌, ◌⊎◌, inl, inr, true, none, some, arith, Bool-cases,
}
use ai_trader_api.Base.Action.{Result, ok, err}
use ai_trader_api.Base.Double.{Double}
use ai_trader_api.Portfolio.{Exchange, Reason, aggregate_risk_limit, Account, Order, Db, World}
use ai_trader_api.Portfolio.Execution.{Env}
use ai_trader_api.Portfolio.Accounts.{owned_by}
use ai_trader_api.Portfolio.Accounts.Views.{get_portfolio-found}
use ai_trader_api.Portfolio.Risk.{
  RiskState, guard_buy_order, get_risk_state, state_from, blocked_reason,
}
use ai_trader_api.Portfolio.Risk.Gate.{IsAllowed, Settles, guard_buy_order-Settles, view}

blocked_reason-some :
    {N : Type 0} (num : Double N) (pnl_pct risk_pct : N) (n : ℕ) (r : Reason)
    → blocked_reason num pnl_pct n risk_pct ≡ some r
    → r ≢ aggregate_risk_limit
    → (num.le pnl_pct (num.neg (num.of_ℕ 3)) ≡ true) ⊎ (5 < n)
unfolding blocked_reason
blocked_reason-some num pnl_pct risk_pct n r h other =
    elim (Bool-cases (num.le pnl_pct (num.neg (num.of_ℕ 3)))) [
      | inl e ↦ inl e
      | inr e ↦ inr (ground (arith, e))
    ]

module _ {N P Q O T : Type 0} (db : Db N P Q O T) (env : Env N) (order : Order N)
    (exchange : Exchange) (w : World N P Q O T) (account : Account N)
    (owned : db.accounts.find_one (owned_by order.user_id exchange) w.accounts ≡ some account) where
  get_risk_state-found :
      (get_risk_state db env order.user_id exchange w).0
      ≡ ok (state_from db env (view db env order exchange w account owned) none w)
  unfolding get_risk_state
  get_risk_state-found = rw (get_portfolio-found db env order.user_id exchange w account owned) refl

  Settles-refuses :
      (p : Result Reason ⊤ × World N P Q O T)
      → Settles db env order exchange w account owned p
      → ((price : N) → ¬ IsAllowed db env order exchange w account owned price)
      → (e : Reason) × (p.0 ≡ err e)
  Settles-refuses (ok _, v) (_, price, allowed) never = absurd (never price allowed)
  Settles-refuses (err e, v) h never = (e, refl)

  -- Where the state that a user with an account is shown is blocked by the session's loss or by the
  -- number of positions, the gate refuses every BUY of the user on the exchange at that time.
  pub blocked_state_refuses_buys :
      (st : RiskState N) (r : Reason)
      → (get_risk_state db env order.user_id exchange w).0 ≡ ok st
      → st.blocked_reason ≡ some r
      → r ≢ aggregate_risk_limit
      → (e : Reason) × ((guard_buy_order db env order exchange w).0 ≡ err e)
  unfolding state_from
  blocked_state_refuses_buys st r shown blocked other =
      let v = view db env order exchange w account owned in
      let same : state_from db env v none w ≡ st = cc get_risk_state-found in
      let reason : (state_from db env v none w).blocked_reason ≡ some r =
        ap (λ (x : RiskState N). x.blocked_reason) same ∙ blocked in
      Settles-refuses (guard_buy_order db env order exchange w)
        (guard_buy_order-Settles db env order exchange w account owned)
        (λ price allowed. elim (blocked_reason-some db.num _ _ _ r reason other) [
          | inl lost ↦ cc (lost, allowed.no_loss)
          | inr many ↦ ground (arith, allowed.few)
        ])
