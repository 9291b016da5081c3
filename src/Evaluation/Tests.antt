-- ===== src/Evaluation/Tests.antt =====
-- Runs of eval.ts over whole numbers.
use ai_trader_api.Base.{◌≡◌, none, some, [], ◌∷◌, length, filter, All}
use ai_trader_api.Base.Int.{ℤ, pos, whole}
use ai_trader_api.Evaluation.{
  UpstreamOutcome, DedupeCandidate, target_hit, stop_hit, outcome_of, bucket_by,
}
use ai_trader_api.Evaluation.Buckets.{IsDescending, sum_trades, has_key, bucket_by_lem}

abbrev first : UpstreamOutcome ℤ
first = record {
  id = some "s1";
  symbol = "TCS";
  outcome = stop_hit;
  exit_price = none;
  pnl_pct = none;
}

abbrev second : UpstreamOutcome ℤ
second = record first { outcome = target_hit; pnl_pct = some (pos 2) }

abbrev setup : DedupeCandidate ℤ
setup = record {
  symbol = "TCS";
  direction = "BUY";
  entry_price = pos 100;
  generated_at = some 1000;
}

bucket_by_lem_example :
    let closed = first ∷ second ∷ [] in
    let key = λ (e : UpstreamOutcome ℤ). e.symbol in
    let buckets = bucket_by whole (outcome_of whole) closed key in
    IsDescending buckets
    × (sum_trades buckets ≡ 2)
    × All (λ b. b.trades ≡ length (filter (has_key key b.key) closed)) buckets
bucket_by_lem_example = bucket_by_lem whole (outcome_of whole) (first ∷ second ∷ []) (λ e. e.symbol)
