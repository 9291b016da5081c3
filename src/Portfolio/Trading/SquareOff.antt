-- ===== src/Portfolio/Trading/SquareOff.antt =====
-- paper-trading.service.ts: what the square-off reports.
use ai_trader_api.Base.{
  ℕ, ◌≡◌, refl, ap, subst, ◌+◌, Bool, true, false, List, [], ◌∷◌, length, filter, arith, Option,
}
use mathlib.Core.List
use ai_trader_api.Base.Action.{Result, ok, err}
use ai_trader_api.Base.Collection.{IsLawful}
use ai_trader_api.Portfolio.{Position, Reason, Db, World, same_position}
use ai_trader_api.Portfolio.Execution.{Env}
use ai_trader_api.Portfolio.Accounts.{open_positions_across_users}
use ai_trader_api.Portfolio.Trading.{
  SquareOffResult, Detail, close_out, close_each, square_off_all, count_exit,
}

abbrev is_closed : {N : Type 0} → Detail N → Bool
is_closed d = elim d.exit [ ok _ ↦ true | err _ ↦ false ]

-- A report that accounts for each position once.
pub record IsReport {N : Type 0} (positions : List (Position N)) (r : SquareOffResult N)
    : Type 0 where
  pub users : List.map (λ d. d.user_id) r.details ≡ List.map (λ p. p.user_id) positions
  pub symbols : List.map (λ d. d.symbol) r.details ≡ List.map (λ p. p.symbol) positions
  pub quantities : List.map (λ d. d.quantity) r.details ≡ List.map (λ p. p.quantity) positions
  pub closed : r.closed ≡ length (filter is_closed r.details)
  pub all : r.closed + r.failed ≡ length positions

module _ {N P Q O T : Type 0} (db : Db N P Q O T) (env : ℕ → Env N) where
  count_exit-IsReport :
      (p : Position N) (exit : Result Reason (Option N)) (ps : List (Position N))
      (r : SquareOffResult N)
      → IsReport ps r
      → IsReport (p ∷ ps) (count_exit db p exit r)
  count_exit-IsReport p (ok price) ps r h = record {
    users = ap (◌∷◌ p.user_id) h.users;
    symbols = ap (◌∷◌ p.symbol) h.symbols;
    quantities = ap (◌∷◌ p.quantity) h.quantities;
    closed = omega (arith, h.closed);
    all = omega (arith, h.all);
  }
  count_exit-IsReport p (err e) ps r h = record {
    users = ap (◌∷◌ p.user_id) h.users;
    symbols = ap (◌∷◌ p.symbol) h.symbols;
    quantities = ap (◌∷◌ p.quantity) h.quantities;
    closed = h.closed;
    all = omega (arith, h.all);
  }

  close_each-IsReport :
      (ps : List (Position N)) (i : ℕ) (w : World N P Q O T)
      → IsReport ps (close_each db env i ps w).0
  unfolding close_each
  close_each-IsReport [] i w = record {
    users = refl;
    symbols = refl;
    quantities = refl;
    closed = refl;
    all = refl;
  }
  close_each-IsReport (p ∷ ps) i w =
      count_exit-IsReport p (close_out db (env i) p w).0 ps _
        (close_each-IsReport ps (i + 1) (close_out db (env i) p w).1)

  -- Whatever fails along the way, the square-off answers with one detail for each open position of
  -- every user, in their order; the closed ones are those with an exit; closed and failed add up to
  -- the number of positions.
  pub square_off_all-IsReport :
      (lq : IsLawful same_position db.positions) (w : World N P Q O T)
      → IsReport
          (filter (λ p. db.num.lt (db.num.of_ℕ 0) p.quantity) (lq.docs w.positions))
          (square_off_all db env w).0
  unfolding square_off_all open_positions_across_users
  square_off_all-IsReport lq w =
      subst (λ ps. IsReport ps (square_off_all db env w).0) (lq.find_lem _ w.positions)
        (close_each-IsReport _ 0 w)
