-- ===== src/Chat/Runs.antt =====
-- src/chat/chat-sessions.service.ts: `listStrategyRuns`, which reads the backtests of a user out of the
-- stored events. `kind_of`, `label_of` and `detail_of` read the fields of an event.
use ai_trader_api.Base.{
  ℕ, ◌≡◌, refl, String, Bool, false, ◌&&◌, ◌||◌, Option, none, some, List, [], ◌∷◌, ◌++◌, str_eq,
  if◌then◌else◌, or_else, min, max, filter, arith, Bool-cases, inl, inr,
}
use ai_trader_api.Chat.{ChatTurn, StoredEvent, event, truncated}

-- `StrategyRun`.
pub record StrategyRun (J : Type 0) : Type 0 where
  pub turn_id : String
  pub session_id : String
  pub symbol : String
  pub ran_at : ℕ
  pub asked_for : String
  pub label : String
  pub detail : J

module _ {J : Type 0} (kind_of label_of : J → Option String) (detail_of : J → Option J)
    (empty : J) where
  abbrev pub is_run : J → Bool
  is_run e = elim (kind_of e) [ none ↦ false | some k ↦ str_eq k "strategy_run" ]

  abbrev pub run_of : ChatTurn J → J → StrategyRun J
  run_of t e = record {
    turn_id = t.turn_id;
    session_id = t.session_id;
    symbol = t.symbol;
    ran_at = t.created_at;
    asked_for = t.message;
    label = or_else (label_of e) "Strategy run";
    detail = or_else (detail_of e) empty;
  }

  -- The inner loop; the marker of events that are left out is no run.
  pub runs_in : ChatTurn J → List (StoredEvent J) → List (StrategyRun J)
  runs_in t [] = []
  runs_in t (truncated dropped ∷ events) = runs_in t events
  runs_in t (event e ∷ events) =
      let rest = runs_in t events in if is_run e then run_of t e ∷ rest else rest

  -- The outer loop.
  pub runs_of : List (ChatTurn J) → List (StrategyRun J)
  runs_of [] = []
  runs_of (t ∷ ts) = runs_in t t.events ++ runs_of ts

  -- `'events.kind': 'strategy_run'`
  pub has_run : List (StoredEvent J) → Bool
  has_run [] = false
  has_run (truncated dropped ∷ events) = has_run events
  has_run (event e ∷ events) = is_run e || has_run events

  -- `find(p).sort({ createdAt: -1 }).limit(n)` is a parameter.
  pub list_strategy_runs :
      {S : Type 0}
      → ((ChatTurn J → Bool) → ℕ → S → List (ChatTurn J))
      → String
      → ℕ
      → S
      → List (StrategyRun J)
  list_strategy_runs find_newest user limit s =
      runs_of
        (find_newest (λ t. str_eq t.user_id user && has_run t.events) (min (max limit 1) 200) s)

  -- The query of the turns loses no run: a turn that it leaves out has none.
  pub runs_in-none :
      (t : ChatTurn J) (events : List (StoredEvent J))
      → has_run events ≡ false
      → runs_in t events ≡ []
  unfolding runs_in has_run
  runs_in-none t [] h = refl
  runs_in-none t (truncated dropped ∷ events) h = runs_in-none t events h
  runs_in-none t (event e ∷ events) h = ground (arith, runs_in-none t events)

  -- The runs of the turns that the query meets are those of all the user's turns, in their order.
  pub runs_of-filter :
      (user : String) (ts : List (ChatTurn J))
      → runs_of (filter (λ t. str_eq t.user_id user && has_run t.events) ts)
        ≡ runs_of (filter (λ t. str_eq t.user_id user) ts)
  unfolding runs_of
  runs_of-filter user [] = refl
  runs_of-filter user (t ∷ ts) = elim (Bool-cases (has_run t.events)) [
    | inl e ↦ ground (arith, e, runs_of-filter user ts)
    | inr e ↦ ground (arith, e, runs_in-none t t.events, runs_of-filter user ts)
  ]
