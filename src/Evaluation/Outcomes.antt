-- ===== src/Evaluation/Outcomes.antt =====
-- eval.ts: which outcome a signal is given, and what a duplicate restates.
use ai_trader_api.Base.{
  ℕ, ◌≡◌, ◌≢◌, refl, ◌∙◌, ◌+◌, ◌≤◌, inl, inr, String, Bool, true, false, Option, none, some, List,
  [], ◌∷◌, str_eq, if◌then◌else◌, find?, any, arith, Bool-cases, Option-cases, eq_iff,
}
use mathlib.Core.Option
use ai_trader_api.Base.Dict.{Dict, lookup, lookup-insert}
use ai_trader_api.Base.Double.{Double}
use ai_trader_api.Evaluation.{
  UpstreamOutcome, SignalOutcome, DedupeCandidate, outcome_of, set_outcome, index_from,
  index_outcomes, restates, is_duplicate_setup,
}

-- The last element that passes a test.
abbrev last_match : {A : Type 0} → (A → Bool) → List A → Option A
last_match p [] = none
last_match p (x ∷ xs) = elim (last_match p xs) [
  | some y ↦ some y
  | none ↦ if p x then some x else none
]

abbrev has_id : {N : Type 0} → String → UpstreamOutcome N → Bool
has_id id r = elim r.id [ none ↦ false | some i ↦ str_eq i id ]

module _ {N : Type 0} (num : Double N) where
  abbrev or_kept : Option (UpstreamOutcome N) → Option (SignalOutcome N) → Option (SignalOutcome N)
  or_kept none kept = kept
  or_kept (some r) kept = some (outcome_of num r)

  set_outcome-lookup :
      (id : String) (r : UpstreamOutcome N) (d : Dict (SignalOutcome N))
      → id ≢ ""
      → lookup id (set_outcome num r d)
        ≡ or_kept (if has_id id r then some r else none) (lookup id d)
  set_outcome-lookup id r d real = elim (Option-cases r.id) [
    | inl e ↦ rw (has_id, set_outcome, e) refl
    | inr (i, e) ↦
        rw (has_id, set_outcome, e)
          (ground (arith, lookup-insert i id (outcome_of num r) d, eq_iff i "", eq_iff i id, real))
  ]

  index_from-lookup :
      (id : String) (rows : List (UpstreamOutcome N)) (d : Dict (SignalOutcome N))
      → id ≢ ""
      → lookup id (index_from num d rows) ≡ or_kept (last_match (has_id id) rows) (lookup id d)
  unfolding index_from
  index_from-lookup id [] d real = refl
  index_from-lookup id (r ∷ rows) d real = elim (Option-cases (last_match (has_id id) rows)) [
    | inl e ↦
        index_from-lookup id rows (set_outcome num r d) real ∙ rw e (set_outcome-lookup id r d real)
    | inr (x, e) ↦ index_from-lookup id rows (set_outcome num r d) real ∙ rw e refl
  ]

  -- A signal is given the outcome of the last row with its id, in whatever order the rows come, and
  -- no outcome if no row has its id.
  index_outcomes_lem :
      (id : String) (rows : List (UpstreamOutcome N))
      → id ≢ ""
      → lookup id (index_outcomes num rows)
        ≡ Option.map (outcome_of num) (last_match (has_id id) rows)
  unfolding index_outcomes
  index_outcomes_lem id rows real = elim (Option-cases (last_match (has_id id) rows)) [
    | inl e ↦ index_from-lookup id rows [] real ∙ rw e refl
    | inr (x, e) ↦ index_from-lookup id rows [] real ∙ rw e refl
  ]

any-found :
    {A : Type 0} (p : A → Bool) (xs : List A)
    → any p xs ≡ true
    → (a : A) × (find? p xs ≡ some a) × (p a ≡ true)
any-found p [] h = cc
any-found p (x ∷ xs) h = elim (Bool-cases (p x)) [
  | inl e ↦ (x, rw e refl, e)
  | inr e ↦ let (a, found, passes) = any-found p xs (rw e at h) in (a, rw e found, passes)
]

module _ {N : Type 0} (num : Double N) (abs : N → N) (incoming : DedupeCandidate N)
    (recent : List (DedupeCandidate N)) (window : ℕ) (tolerance : N) where
  restates-cases :
      (at : ℕ) (prior : DedupeCandidate N)
      → restates num abs incoming at window tolerance prior ≡ true
      → (prior_at : ℕ) × (prior.symbol ≡ incoming.symbol)
        × (prior.direction ≡ incoming.direction)
        × (prior.generated_at ≡ some prior_at)
        × (at ≤ prior_at + window)
        × (prior_at ≤ at + window)
  restates-cases at prior h = elim (Option-cases prior.generated_at) [
    | inl e ↦ absurd (ground (arith, rw (restates, e) at h))
    | inr (t, e) ↦
        let near = rw (restates, e) at h in
        (
          t,
          ground (arith, eq_iff prior.symbol incoming.symbol, near),
          ground (arith, eq_iff prior.direction incoming.direction, near),
          e,
          ground (arith, near),
          ground (arith, near),
        )
  ]

  -- A signal that is taken for a duplicate restates a stored one: of the same symbol and direction,
  -- generated within the window before or after it, at an entry price within the tolerance.
  pub is_duplicate_setup_lem :
      is_duplicate_setup num abs incoming recent window tolerance ≡ true
      → (prior : DedupeCandidate N) × (at : ℕ) × (prior_at : ℕ) × (find?
            (restates num abs incoming at window tolerance)
            recent
          ≡ some prior)
        × (prior.symbol ≡ incoming.symbol)
        × (prior.direction ≡ incoming.direction)
        × (incoming.generated_at ≡ some at)
        × (prior.generated_at ≡ some prior_at)
        × (at ≤ prior_at + window)
        × (prior_at ≤ at + window)
  unfolding is_duplicate_setup
  is_duplicate_setup_lem h = elim (Option-cases incoming.generated_at) [
    | inl e ↦ absurd (cc (rw e at h))
    | inr (at, e) ↦ elim (Bool-cases (num.truthy incoming.entry_price)) [
      | inr z ↦ absurd (cc (rw (e, z) at h))
      | inl z ↦
          let p = restates num abs incoming at window tolerance in
          let (prior, found, passes) = any-found p recent (rw (e, z) at h) in
          let (prior_at, symbol, direction, dated, late, early) = restates-cases at prior passes in
          (prior, at, prior_at, found, symbol, direction, e, dated, late, early)
    ]
  ]
