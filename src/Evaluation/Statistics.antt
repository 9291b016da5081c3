-- ===== src/Evaluation/Statistics.antt =====
-- src/signals/eval.ts: `performanceStats`. `abs` and `sqrt` stand for `Math.abs` and `Math.sqrt`, `z95`
-- for the literal 1.96.
use ai_trader_api.Base.{
  ◌≡◌, refl, ◌≤◌, ◌⊎◌, inl, inr, false, Bool-cases, arith, ◌-◌, Bool, true, ◌&&◌, Option, none,
  some, List, [], ◌∷◌, ltb, if◌then◌else◌, length, filter, map,
}
use ai_trader_api.Base.Double.{Double}
use ai_trader_api.Portfolio.{round2}
use ai_trader_api.Portfolio.Accounts.{sum_from}
use ai_trader_api.Evaluation.{Kind, is_target_hit, is_stop_hit, SignalOutcome, PerformanceStats}

module _ {N : Type 0} (num : Double N) where
  open num use {of_ℕ, add, sub, mul, div, neg, le, lt, truthy, round}

  abbrev pub sum : List N → N
  sum xs = sum_from num (λ x. x) (of_ℕ 0) xs

  abbrev pub mean : List N → N
  mean xs = div (sum xs) (of_ℕ (length xs))

  abbrev pub mean_or_zero : List N → N
  mean_or_zero [] = of_ℕ 0
  mean_or_zero (x ∷ xs) = mean (x ∷ xs)

  abbrev pub magnitude_or_zero : (N → N) → List N → N
  magnitude_or_zero abs [] = of_ℕ 0
  magnitude_or_zero abs (x ∷ xs) = abs (mean (x ∷ xs))

  abbrev pub pnls_of : (Kind → Bool) → List (SignalOutcome N) → List N
  pnls_of p closed = map (λ e. e.pnl_pct) (filter (λ e. p e.outcome) closed)

  -- `winLossRatio` and `breakeven`.
  abbrev pub ratio_of : N → N → Option N
  ratio_of avg_win avg_loss = if lt (of_ℕ 0) avg_loss then some (div avg_win avg_loss) else none

  abbrev pub breakeven_of : Option N → Option N
  breakeven_of none = none
  breakeven_of (some r) =
      if lt (of_ℕ 0) (add r (of_ℕ 1))
      then some (mul (div (of_ℕ 1) (add r (of_ℕ 1))) (of_ℕ 100))
      else none

  module _ (abs sqrt : N → N) (z95 : N) where
    abbrev pub squared_error : N → N → N
    squared_error mean x = mul (sub x mean) (sub x mean)

    -- The interval, for a mean and the numbers; `z95` is 1.96.
    abbrev pub interval_of : N → List N → Option (N × N)
    interval_of expectancy pnls =
        let n = length pnls in
        let variance = div (sum_from num (squared_error expectancy) (of_ℕ 0) pnls) (of_ℕ (n - 1)) in
        let std_err = sqrt (div variance (of_ℕ n)) in
        if ltb 1 n
        then some (
          round2 num (sub expectancy (mul z95 std_err)),
          round2 num (add expectancy (mul z95 std_err)),
        )
        else none

    abbrev pub spans_zero : Option (N × N) → Bool
    spans_zero none = true
    spans_zero (some (low, high)) = le low (of_ℕ 0) && le (of_ℕ 0) high

    abbrev pub no_stats : PerformanceStats N
    no_stats = record {
      sample_size = 0;
      win_rate = of_ℕ 0;
      avg_win_pct = of_ℕ 0;
      avg_loss_pct = of_ℕ 0;
      win_loss_ratio = none;
      breakeven_win_rate = none;
      expectancy_pct = of_ℕ 0;
      expectancy_ci95 = none;
      inconclusive = true;
    }

    abbrev pub round2_opt : Option N → Option N
    round2_opt none = none
    round2_opt (some x) = some (round2 num x)

    -- `performanceStats`.
    pub performance_stats : List (SignalOutcome N) → PerformanceStats N
    performance_stats [] = no_stats
    performance_stats (e ∷ es) =
        let closed = e ∷ es in
        let n = length closed in
        let wins = pnls_of is_target_hit closed in
        let losses = pnls_of is_stop_hit closed in
        let avg_win = mean_or_zero wins in
        let avg_loss = magnitude_or_zero abs losses in
        let ratio = ratio_of avg_win avg_loss in
        let pnls = map (λ x. x.pnl_pct) closed in
        let expectancy = mean pnls in
        let ci = interval_of expectancy pnls in
        record {
          sample_size = n;
          win_rate = round2 num (mul (div (of_ℕ (length wins)) (of_ℕ n)) (of_ℕ 100));
          avg_win_pct = round2 num avg_win;
          avg_loss_pct = round2 num avg_loss;
          win_loss_ratio = round2_opt ratio;
          breakeven_win_rate = round2_opt (breakeven_of ratio);
          expectancy_pct = div (round (mul expectancy (of_ℕ 1000))) (of_ℕ 1000);
          expectancy_ci95 = ci;
          inconclusive = spans_zero ci;
        }

module _ {N : Type 0} (num : Double N) (abs sqrt : N → N) (z95 : N) where
  open num use {of_ℕ, le}

  spans_zero-false :
      (ci : Option (N × N))
      → spans_zero num abs sqrt z95 ci ≡ false
      → (low : N) × (high : N) × (ci ≡ some (low, high))
        × ((le low (of_ℕ 0) ≡ false) ⊎ (le (of_ℕ 0) high ≡ false))
  spans_zero-false none h = cc
  spans_zero-false (some (low, high)) h = (
    low,
    high,
    refl,
    elim (Bool-cases (le low (of_ℕ 0))) [ inl e ↦ inr (ground (arith, h, e)) | inr e ↦ inl e ],
  )

  -- A sample that is not called inconclusive has at least two signals, and its interval lies wholly
  -- on one side of zero.
  conclusive_lem :
      (closed : List (SignalOutcome N))
      → let stats = performance_stats num abs sqrt z95 closed in
        stats.inconclusive ≡ false
        → (2 ≤ stats.sample_size)
          × ((low : N) × (high : N) × (stats.expectancy_ci95 ≡ some (low, high))
              × ((le low (of_ℕ 0) ≡ false) ⊎ (le (of_ℕ 0) high ≡ false)))
  unfolding performance_stats
  conclusive_lem [] h = cc
  conclusive_lem (e ∷ []) h = cc
  conclusive_lem (e ∷ d ∷ es) h = (omega arith, spans_zero-false _ h)
