-- ===== src/Signals/Performance.antt =====
-- signals.service.ts: `evaluatePerformance`, the performance of the newest signals.
use ai_trader_api.Base.{
  ◌⊎◌, inl, inr, suc, length-filter, ℕ, ◌≡◌, refl, ap, ◌+◌, ◌-◌, String, Bool, true, false, ◌||◌,
  Option, none, some, List, [], ◌∷◌, map, filter, length, if◌then◌else◌, or_else, arith,
}
use ai_trader_api.Base.Dict.{Dict, lookup}
use ai_trader_api.Base.Double.{Double}
use ai_trader_api.Portfolio.Accounts.{sum_from}
use ai_trader_api.Evaluation.{
  Kind, target_hit, stop_hit, still_open, no_data, is_target_hit, is_stop_hit, SignalOutcome,
  UpstreamOutcome, Bucket, PerformanceStats, index_outcomes, bucket_by,
}
use ai_trader_api.Evaluation.Statistics.{performance_stats}
use ai_trader_api.Signals.{Signal, SignalStore}

module _ (N J : Type 0) where
  -- `EvaluateRequestSignal`; the instant is sent as a text.
  pub record EvaluateRequestSignal : Type 0 where
    pub id : String
    pub symbol : String
    pub exchange : String
    pub direction : String
    pub entry_price : N
    pub target_price : N
    pub stop_loss : N
    pub generated_at : ℕ

  pub record EvaluatedSignal : Type 0 where
    pub signal : Signal N J
    pub outcome : SignalOutcome N

  -- The `summary`; the fields of the statistics are together.
  pub record Summary : Type 0 where
    pub total : ℕ
    pub resolved : ℕ
    pub wins : ℕ
    pub losses : ℕ
    pub still_open : ℕ
    pub no_data : ℕ
    pub avg_pnl_pct : N
    pub stats : PerformanceStats N

  pub record PerformanceReport : Type 0 where
    pub signals : List EvaluatedSignal
    pub summary : Summary
    pub by_confidence : List (Bucket N)
    pub by_symbol : List (Bucket N)

abbrev pub is_still_open : Kind → Bool
is_still_open still_open = true
is_still_open _ = false

abbrev pub is_no_data : Kind → Bool
is_no_data no_data = true
is_no_data _ = false

module _ {N : Type 0} (num : Double N) where
  -- `UNEVALUATED`.
  abbrev pub unevaluated : SignalOutcome N
  unevaluated = record { outcome = no_data; exit_price = none; pnl_pct = num.of_ℕ 0 }

  -- The outcomes, where the upstream answered, and none where it threw.
  abbrev pub outcomes_of : Option (List (UpstreamOutcome N)) → Dict (SignalOutcome N)
  outcomes_of none = []
  outcomes_of (some rows) = index_outcomes num rows

module _ {N J : Type 0} where
  abbrev pub kind_of : EvaluatedSignal N J → Kind
  kind_of e = e.outcome.outcome

  abbrev pub is_closed : EvaluatedSignal N J → Bool
  is_closed e = is_target_hit (kind_of e) || is_stop_hit (kind_of e)

  abbrev pub request_of_signal : Signal N J → EvaluateRequestSignal N J
  request_of_signal s = record {
    id = s.id;
    symbol = s.fields.symbol;
    exchange = s.fields.exchange;
    direction = s.fields.direction;
    entry_price = s.fields.entry_price;
    target_price = s.fields.target_price;
    stop_loss = s.fields.stop_loss;
    generated_at = or_else s.fields.generated_at s.created_at;
  }

module _ {N J : Type 0} (num : Double N) where
  abbrev pub evaluated_of : Dict (SignalOutcome N) → Signal N J → EvaluatedSignal N J
  evaluated_of outcomes s = record {
    signal = s;
    outcome = or_else (lookup s.id outcomes) (unevaluated num);
  }

-- `eval.ts` and the literals it needs: `abs` and `sqrt`, 1.96, 0.8 and 0.7.
module _ {N J : Type 0} (num : Double N) (abs sqrt : N → N) (z95 high middle : N) where
  open num use {of_ℕ, mul, div, le, round}

  abbrev pub average_pnl : List (EvaluatedSignal N J) → N
  average_pnl [] = of_ℕ 0
  average_pnl (e ∷ es) =
      div (sum_from num (λ x. x.outcome.pnl_pct) (of_ℕ 0) (e ∷ es)) (of_ℕ (length (e ∷ es)))

  abbrev pub confidence_key : EvaluatedSignal N J → String
  confidence_key e =
      if le high e.signal.fields.confidence
      then "0.80+"
      else if le middle e.signal.fields.confidence
      then "0.70-0.79"
      else "0.65-0.69"

  abbrev pub summary_of : List (EvaluatedSignal N J) → Summary N J
  summary_of evaluated =
      let closed = filter is_closed evaluated in
      let wins = filter (λ e. is_target_hit (kind_of e)) closed in
      record {
        total = length evaluated;
        resolved = length closed;
        wins = length wins;
        losses = length closed - length wins;
        still_open = length (filter (λ e. is_still_open (kind_of e)) evaluated);
        no_data = length (filter (λ e. is_no_data (kind_of e)) evaluated);
        avg_pnl_pct = div (round (mul (average_pnl closed) (of_ℕ 100))) (of_ℕ 100);
        stats = performance_stats num abs sqrt z95 (map (λ e. e.outcome) closed);
      }

  -- `evaluatePerformance`; `ask` is `SignalsUpstreamClient.evaluate`, `none` where it throws.
  unfoldable pub evaluate_performance :
      {S : Type 0}
      → SignalStore S N J
      → (List (EvaluateRequestSignal N J) → Option (List (UpstreamOutcome N)))
      → ℕ
      → S
      → PerformanceReport N J
  evaluate_performance signals ask limit s =
      let found = signals.find_newest (λ d. true) limit s in
      let evaluated =
        map (evaluated_of num (outcomes_of num (ask (map request_of_signal found)))) found in
      let closed = filter is_closed evaluated in
      record {
        signals = evaluated;
        summary = summary_of evaluated;
        by_confidence = bucket_by num (λ e. e.outcome) closed confidence_key;
        by_symbol = bucket_by num (λ e. e.outcome) closed (λ e. e.signal.fields.symbol);
      }

Kind-cases : (k : Kind) → (k ≡ target_hit) ⊎ (k ≡ stop_hit) ⊎ (k ≡ still_open) ⊎ (k ≡ no_data)
Kind-cases target_hit = inl refl
Kind-cases stop_hit = inr (inl refl)
Kind-cases still_open = inr (inr (inl refl))
Kind-cases no_data = inr (inr (inr refl))

length-map : {A B : Type 0} (f : A → B) (xs : List A) → length (map f xs) ≡ length xs
length-map f [] = refl
length-map f (x ∷ xs) = ap suc (length-map f xs)

module _ {N J : Type 0} where
  kinds_add_up :
      (es : List (EvaluatedSignal N J))
      → length (filter is_closed es)
          + length (filter (λ e. is_still_open (kind_of e)) es)
          + length (filter (λ e. is_no_data (kind_of e)) es)
        ≡ length es
  kinds_add_up [] = refl
  kinds_add_up (e ∷ es) = elim (Kind-cases (kind_of e)) [
    | inl k ↦ rw k (omega (arith, kinds_add_up es))
    | inr (inl k) ↦ rw k (omega (arith, kinds_add_up es))
    | inr (inr (inl k)) ↦ rw k (omega (arith, kinds_add_up es))
    | inr (inr (inr k)) ↦ rw k (omega (arith, kinds_add_up es))
  ]

module _ {N J : Type 0} (num : Double N) where
  none_closed :
      (found : List (Signal N J)) → filter is_closed (map (evaluated_of num []) found) ≡ []
  none_closed [] = refl
  none_closed (d ∷ found) = none_closed found

  all_without_data :
      (found : List (Signal N J))
      → filter (λ e. is_no_data (kind_of e)) (map (evaluated_of num []) found)
        ≡ map (evaluated_of num []) found
  all_without_data [] = refl
  all_without_data (d ∷ found) = ap (◌∷◌ (evaluated_of num [] d)) (all_without_data found)

module _ {N J S : Type 0} (num : Double N) (abs sqrt : N → N) (z95 high middle : N)
    (signals : SignalStore S N J)
    (ask : List (EvaluateRequestSignal N J) → Option (List (UpstreamOutcome N))) (limit : ℕ)
    (s : S) where
  -- Every signal that is looked at is counted once: as resolved, as open, or as without data, and the
  -- resolved ones as won or lost.
  pub evaluate_performance_adds_up :
      let summary =
        (evaluate_performance num abs sqrt z95 high middle signals ask limit s).summary in
      (summary.total ≡ length (signals.find_newest (λ d. true) limit s))
      × (summary.resolved + summary.still_open + summary.no_data ≡ summary.total)
      × (summary.wins + summary.losses ≡ summary.resolved)
  unfolding evaluate_performance
  evaluate_performance_adds_up =
      let found = signals.find_newest (λ d. true) limit s in
      let evaluated =
        map (evaluated_of num (outcomes_of num (ask (map request_of_signal found)))) found in
      (
        length-map (evaluated_of num (outcomes_of num (ask (map request_of_signal found)))) found,
        kinds_add_up evaluated,
        omega (arith, length-filter (λ e. is_target_hit (kind_of e)) (filter is_closed evaluated)),
      )

  -- Where the signals service cannot be asked, every signal counts as without data, and none as
  -- resolved, so that no win or loss is made up.
  pub unreachable_evaluator_is_no_data :
      ask (map request_of_signal (signals.find_newest (λ d. true) limit s)) ≡ none
      → let summary =
          (evaluate_performance num abs sqrt z95 high middle signals ask limit s).summary in
        (summary.no_data ≡ summary.total) × (summary.resolved ≡ 0) × (summary.wins ≡ 0)
  unfolding evaluate_performance
  unreachable_evaluator_is_no_data h =
      let found = signals.find_newest (λ d. true) limit s in
      rw (h, all_without_data num found, none_closed num found) (refl, refl, refl)
