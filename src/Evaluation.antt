-- ===== src/Evaluation.antt =====
-- src/signals/eval.ts: the aggregation of signal outcomes. `num` are JavaScript numbers, `abs` stands
-- for `Math.abs`; the tolerance 0.005 is an argument. The child module Statistics is `performanceStats`.
pub mod Outcomes
pub mod Buckets
pub mod Statistics
mod Tests
use ai_trader_api.Base.{
  ℕ, ◌+◌, ◌-◌, ◌*◌, String, Bool, true, false, not, ◌&&◌, ◌||◌, Option, none, some, List, [], ◌∷◌,
  ◌++◌, leb, ltb, ◌==◌, str_eq, if◌then◌else◌, or_else, length, filter, any, map,
}
use ai_trader_api.Base.Dict.{Dict, lookup, insert}
use ai_trader_api.Base.Double.{Double}
use ai_trader_api.Portfolio.{round2}
use ai_trader_api.Portfolio.Accounts.{sum_from}

-- `SignalOutcomeKind`.
pub data Kind : Type 0 where
  target_hit stop_hit still_open no_data : Kind

abbrev pub is_target_hit : Kind → Bool
is_target_hit target_hit = true
is_target_hit _ = false

abbrev pub is_stop_hit : Kind → Bool
is_stop_hit stop_hit = true
is_stop_hit _ = false

module _ (N : Type 0) where
  -- `SignalOutcome`.
  pub record SignalOutcome : Type 0 where
    pub outcome : Kind
    pub exit_price : Option N
    pub pnl_pct : N

  -- `UpstreamOutcome`.
  pub record UpstreamOutcome : Type 0 where
    pub id : Option String
    pub symbol : String
    pub outcome : Kind
    pub exit_price : Option N
    pub pnl_pct : Option N

  -- `Bucket`.
  pub record Bucket : Type 0 where
    pub key : String
    pub trades : ℕ
    pub win_rate : N
    pub avg_pnl_pct : N

  -- `DedupeCandidate`; an instant that is no date is `none`.
  pub record DedupeCandidate : Type 0 where
    pub symbol : String
    pub direction : String
    pub entry_price : N
    pub generated_at : Option ℕ

  -- `PerformanceStats`.
  pub record PerformanceStats : Type 0 where
    pub sample_size : ℕ
    pub win_rate : N
    pub avg_win_pct : N
    pub avg_loss_pct : N
    pub win_loss_ratio : Option N
    pub breakeven_win_rate : Option N
    pub expectancy_pct : N
    pub expectancy_ci95 : Option (N × N)
    pub inconclusive : Bool

-- `DEDUPE_WINDOW_MS`.
abbrev pub dedupe_window_ms : ℕ
dedupe_window_ms = 4 * 60 * 60 * 1000

-- The loop of `bucketBy`: a key's group is made at its first item.
pub group_from : {A : Type 0} → (A → String) → Dict (List A) → List A → Dict (List A)
group_from key_fn groups [] = groups
group_from key_fn groups (e ∷ es) =
    group_from key_fn (insert (key_fn e) (or_else (lookup (key_fn e) groups) [] ++ e ∷ []) groups)
      es

-- `sort((a, b) => b.trades - a.trades)`, which is stable.
abbrev pub insert_bucket : {N : Type 0} → Bucket N → List (Bucket N) → List (Bucket N)
insert_bucket b [] = b ∷ []
insert_bucket b (c ∷ cs) =
    let rest = insert_bucket b cs in if ltb b.trades c.trades then c ∷ rest else b ∷ c ∷ cs

abbrev pub sort_buckets : {N : Type 0} → List (Bucket N) → List (Bucket N)
sort_buckets [] = []
sort_buckets (b ∷ bs) = insert_bucket b (sort_buckets bs)

module _ {N : Type 0} (num : Double N) where
  open num use {of_ℕ, add, sub, mul, div, neg, le, lt, truthy, round}

  abbrev pub outcome_of : UpstreamOutcome N → SignalOutcome N
  outcome_of r = record {
    outcome = r.outcome;
    exit_price = r.exit_price;
    pnl_pct = or_else r.pnl_pct (of_ℕ 0);
  }

  -- A row without an id, or with an empty one, is skipped.
  abbrev pub set_outcome : UpstreamOutcome N → Dict (SignalOutcome N) → Dict (SignalOutcome N)
  set_outcome r d = elim r.id [
    | none ↦ d
    | some id ↦ if str_eq id "" then d else insert id (outcome_of r) d
  ]

  unfoldable pub index_from :
      Dict (SignalOutcome N) → List (UpstreamOutcome N) → Dict (SignalOutcome N)
  index_from d [] = d
  index_from d (r ∷ rs) = index_from (set_outcome r d) rs

  -- `indexOutcomes`.
  unfoldable pub index_outcomes : List (UpstreamOutcome N) → Dict (SignalOutcome N)
  index_outcomes rows = index_from [] rows

  -- The test of one stored signal, and `isDuplicateSetup`.
  abbrev pub is_near : ℕ → ℕ → ℕ → Bool
  is_near at prior_at window = leb ((at - prior_at) + (prior_at - at)) window

  abbrev pub restates : (N → N) → DedupeCandidate N → ℕ → ℕ → N → DedupeCandidate N → Bool
  restates abs incoming at window tolerance prior =
      str_eq prior.symbol incoming.symbol
      && (str_eq prior.direction incoming.direction && elim prior.generated_at [
        | none ↦ false
        | some prior_at ↦
            is_near at prior_at window
            && le (div (abs (sub prior.entry_price incoming.entry_price)) incoming.entry_price)
                tolerance
      ])

  unfoldable pub is_duplicate_setup :
      (N → N) → DedupeCandidate N → List (DedupeCandidate N) → ℕ → N → Bool
  is_duplicate_setup abs incoming recent window tolerance = elim incoming.generated_at [
    | none ↦ false
    | some at ↦
        if truthy incoming.entry_price
        then any (restates abs incoming at window tolerance) recent
        else false
  ]

  module _ {A : Type 0} (outcome : A → SignalOutcome N) where
    abbrev pub bucket_of : String × List A → Bucket N
    bucket_of (key, items) = record {
      key = key;
      trades = length items;
      win_rate = round (
          mul
            (div (of_ℕ (length (filter (λ i. is_target_hit (outcome i).outcome) items)))
              (of_ℕ (length items)))
            (of_ℕ 100));
      avg_pnl_pct =
          div
            (round (
              mul
                (div (sum_from num (λ i. (outcome i).pnl_pct) (of_ℕ 0) items) (of_ℕ (length items)))
                (of_ℕ 100)))
            (of_ℕ 100);
    }

    -- `bucketBy`.
    pub bucket_by : List A → (A → String) → List (Bucket N)
    bucket_by closed key_fn = sort_buckets (map bucket_of (group_from key_fn [] closed))
