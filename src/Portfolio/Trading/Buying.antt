-- ===== src/Portfolio/Trading/Buying.antt =====
-- paper-trading.service.ts: a BUY from the request to its end, through the gate and the execution.
use ai_trader_api.Base.{
  ⊤, ◌≡◌, refl, sym, ap, ◌∙◌, subst, ◌++◌, ◌==◌, String, Bool, Option, none, some, [], ◌∷◌, inl,
  inr, arith, Option-cases, find?, All,
}
use ai_trader_api.Base.Action.{Result, ok, err, then_value, then_value-cases}
use ai_trader_api.Base.Collection.{IsLawful}
use ai_trader_api.Base.Updates.{find?-append_last, update_first-append_last}
use ai_trader_api.Portfolio.{
  Exchange, Account, Order, OrderType, market, limit, buy, Db, World, Reason, placement_result,
  same_account, same_order,
}
use ai_trader_api.Portfolio.Execution.{Env, execute_order}
use ai_trader_api.Portfolio.Execution.Cash.{AllSolvent, IsSolvent}
use ai_trader_api.Portfolio.Execution.Solvency.{IsSound, execute_buy-AllSolvent}
use ai_trader_api.Portfolio.Execution.Refusals.{rejection}
use ai_trader_api.Portfolio.Accounts.{owned_by}
use ai_trader_api.Portfolio.Accounts.Views.{ensure_portfolio-found}
use ai_trader_api.Portfolio.Risk.{guard_buy_order}
use ai_trader_api.Portfolio.Risk.Gate.{Settles, guard_buy_order-Settles}
use ai_trader_api.Portfolio.Trading.{
  PlaceOrderDto, given_key, find_placed, place_new, place_order, new_order, resolve_duplicate_key,
  gate, run_order,
}

then_value-err :
    {E W A B : Type 0} (f : A → W → Result E B × W) (p : Result E A × W) (e : E)
    → p.0 ≡ err e
    → then_value f p ≡ (err e, p.1)
then_value-err f (ok a, v) e h = cc
then_value-err f (err d, v) e h = let same : d ≡ e = cc in rw same refl

Settles-err :
    {N P Q O T : Type 0} (db : Db N P Q O T) (env : Env N) (order : Order N) (exchange : Exchange)
    (w : World N P Q O T) (account : Account N)
    (owned : db.accounts.find_one (owned_by order.user_id exchange) w.accounts ≡ some account)
    (p : Result Reason ⊤ × World N P Q O T) (e : Reason)
    → Settles db env order exchange w account owned p
    → p.0 ≡ err e
    → p.1 ≡ record w {
      orders =
          (db.orders.find_one_and_update
            (λ o. o.id == order.id)
            (λ _. rejection db env order e)
            w.orders).1;
    }
Settles-err db env order exchange w account owned (ok _, v) e h k = cc
Settles-err db env order exchange w account owned (err d, v) e h k =
    let same : d ≡ e = cc in rw (← same) h

module _ {N P Q O T : Type 0} (db : Db N P Q O T) (upper : String → String)
    (at_gate at_fill : Env N) (lo : IsLawful same_order db.orders) (user : String)
    (dto : PlaceOrderDto N) (is_buy : dto.side ≡ buy) (w : World N P Q O T) (account : Account N)
    (owned : db.accounts.find_one (owned_by user dto.exchange) w.accounts ≡ some account)
    (fresh : find? (λ o. o.id == at_fill.fresh_id) (lo.docs w.orders) ≡ none) where
  abbrev order : Order N
  order = new_order db upper at_gate at_fill user dto account

  abbrev is_it : Order N → Bool
  is_it o = o.id == at_fill.fresh_id

  abbrev placed_in : O → World N P Q O T
  placed_in orders = record w { orders = orders }

  place_order-place_new :
      find_placed db user (given_key dto.client_order_id) w ≡ none
      → place_order db upper at_gate at_fill user dto w
        ≡ place_new db upper at_gate at_fill user dto account w
  unfolding place_order
  place_order-place_new unplaced =
      rw (ensure_portfolio-found db at_fill user dto.exchange w account owned none, unplaced) refl

  module _ (orders : O) (created : db.orders.create order w.orders ≡ some orders) where
    order_is_found : db.orders.find_one is_it orders ≡ some order
    order_is_found =
        lo.find_one_lem is_it orders
        ∙ rw (lo.created order w.orders orders created)
            (find?-append_last is_it order (lo.docs w.orders) fresh (ground arith))

    place_new-refused :
        (e : Reason)
        → (guard_buy_order db at_gate order order.exchange (placed_in orders)).0 ≡ err e
        → place_new db upper at_gate at_fill user dto account w
          ≡ (err e, (guard_buy_order db at_gate order order.exchange (placed_in orders)).1)
    unfolding place_new
    place_new-refused e refused =
        let run = λ (_ : ⊤). run_order db upper at_gate at_fill order.type order account in
        let w' = placed_in orders in
        rw (created, place_new)
          (subst
            (λ side.
              then_value run (gate db upper at_gate at_fill side order w')
              ≡ (err e, (guard_buy_order db at_gate order order.exchange w').1))
            (sym is_buy)
            (then_value-err run (guard_buy_order db at_gate order order.exchange w') e refused))

    -- A BUY with a fresh id, of a user with an account and not under a key that is taken, which the gate
    -- refuses: the answer is the gate's reason; the order is stored, rejected for this reason; and no
    -- account, position or trade is written and no event is sent, so that it was not executed.
    pub refused_buy_is_not_executed :
        (e : Reason)
        → find_placed db user (given_key dto.client_order_id) w ≡ none
        → (guard_buy_order db at_gate order order.exchange (placed_in orders)).0 ≡ err e
        → let (r, v) = place_order db upper at_gate at_fill user dto w in
          (r ≡ err e)
          × (lo.docs v.orders ≡ lo.docs w.orders ++ rejection db at_gate order e ∷ [])
          × (v.accounts ≡ w.accounts)
          × (v.positions ≡ w.positions)
          × (v.trades ≡ w.trades)
          × (v.events ≡ w.events)
    refused_buy_is_not_executed e unplaced refused =
        let w' = placed_in orders in
        let gated = guard_buy_order db at_gate order order.exchange w' in
        let p = λ (o : Order N). o.id == order.id in
        let left =
          Settles-err db at_gate order order.exchange w' account owned gated e
            (guard_buy_order-Settles db at_gate order order.exchange w' account owned) refused in
        let outcome : place_order db upper at_gate at_fill user dto w ≡ (err e, gated.1) =
          place_order-place_new unplaced ∙ place_new-refused e refused in
        rw (outcome, left)
          (
            refl,
            lo.docs-update p (λ _. rejection db at_gate order e) orders
                ∙ rw (lo.created order w.orders orders created) (
                    update_first-append_last p (λ _. rejection db at_gate order e) order
                      (lo.docs w.orders) fresh (ground arith)),
            refl,
            refl,
            refl,
            refl,
          )

  module _ (la : IsLawful same_account db.accounts) (sound : IsSound db at_fill la order)
      (h : AllSolvent db at_fill la w) where
    abbrev Keeps : {A : Type 0} → Result Reason A × World N P Q O T → Type 0
    Keeps r = AllSolvent db at_fill la r.1

    carried : (v : World N P Q O T) → v.accounts ≡ w.accounts → AllSolvent db at_fill la v
    carried v same = subst (λ accounts. All (IsSolvent db.num) (la.docs accounts)) (sym same) h

    resolved-AllSolvent : (key : Option String) → Keeps (resolve_duplicate_key db user key w)
    resolved-AllSolvent key = elim (Option-cases (find_placed db user key w)) [
      | inl e ↦ rw (e, resolve_duplicate_key) h
      | inr (placed, e) ↦ rw (e, resolve_duplicate_key) h
    ]

    module _ (orders : O) (created : db.orders.create order w.orders ≡ some orders) where
      run-AllSolvent :
          (type : OrderType)
          → Keeps (run_order db upper at_gate at_fill type order account (placed_in orders))
      run-AllSolvent market =
          let run = execute_order db at_fill order.id (some account) none (placed_in orders) in
          let after =
            execute_buy-AllSolvent db at_fill la order is_buy sound (placed_in orders) h order.id
              (some account) none (order_is_found orders created) in
          then_value-cases Keeps (λ f w. (ok (placement_result f.order (some f.trade)), w)) run
            (λ f v e. subst Keeps e after) (λ reason v e. subst Keeps e after)
      run-AllSolvent limit = h

      gated-AllSolvent :
          (p : Result Reason ⊤ × World N P Q O T)
          → Settles db at_gate order order.exchange (placed_in orders) account owned p
          → Keeps (then_value (λ _. run_order db upper at_gate at_fill order.type order account) p)
      gated-AllSolvent (ok _, v) settled = rw settled.0 (run-AllSolvent order.type)
      gated-AllSolvent (err e, v) settled =
          carried v (ap (λ (u : World N P Q O T). u.accounts) settled)

    -- If a debit that the cash covers leaves no debt, adding a cost that is not negative to a balance
    -- without debt leaves none, and no price makes the order's cost negative: placing a BUY with a fresh
    -- id, of a user with an account and not under a key that is taken, leaves no account in debt where
    -- none was before, whether it is stored, refused by the gate, filled, or fails on the way.
    pub place_buy-AllSolvent :
        find_placed db user (given_key dto.client_order_id) w ≡ none
        → AllSolvent db at_fill la (place_order db upper at_gate at_fill user dto w).1
    unfolding place_new
    place_buy-AllSolvent unplaced =
        rw (place_order-place_new unplaced) (elim (Option-cases (db.orders.create order w.orders)) [
          | inl e ↦ rw (e, place_new) (resolved-AllSolvent (given_key dto.client_order_id))
          | inr (orders, e) ↦
              rw (e, place_new)
                (subst
                  (λ side. Keeps (
                    then_value
                      (λ (_ : ⊤). run_order db upper at_gate at_fill order.type order account)
                      (gate db upper at_gate at_fill side order (placed_in orders))))
                  (sym is_buy)
                  (gated-AllSolvent orders e
                    (guard_buy_order db at_gate order order.exchange (placed_in orders))
                    (guard_buy_order-Settles db at_gate order order.exchange (placed_in orders)
                      account owned)))
        ])
