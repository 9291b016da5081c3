-- ===== src/Signals/Tests.antt =====
-- Runs of the signals service on a list of signals, over the whole numbers.
use ai_trader_api.Base.{
  ℕ, ◌≡◌, refl, String, Bool, true, false, Option, none, some, List, [], ◌∷◌, ◌++◌, filter, any,
  take, arith, eq_iff,
}
use ai_trader_api.Base.Int.{ℤ, whole, pos}
use ai_trader_api.Base.Action.{Result, ok, err}
use ai_trader_api.Evaluation.{
  index_from, index_outcomes, is_duplicate_setup, UpstreamOutcome, target_hit,
}
use ai_trader_api.Signals.{
  to_signal_document, SignalMessage, NewSignal, Signal, SignalStore, IsSignalStore, World,
  CreateError, duplicate_key, same_signal, persist_signal,
}
use ai_trader_api.Signals.Persisting.{retried_signal_is_ignored}
use ai_trader_api.Signals.Performance.{EvaluateRequestSignal, evaluate_performance}

abbrev Stored : Type 0
Stored = Signal ℤ String

abbrev stored_as : NewSignal ℤ String → ℕ → Stored
stored_as n now = record { id = "id"; fields = n; created_at = now }

abbrev create_unless :
    Bool → NewSignal ℤ String → ℕ → List Stored → Result CreateError Stored × List Stored
create_unless true n now s = (err duplicate_key, s)
create_unless false n now s = (ok (stored_as n now), s ++ stored_as n now ∷ [])

abbrev list_signals : SignalStore (List Stored) ℤ String
list_signals = record {
  find = filter;
  find_newest = λ p limit s. take limit (filter p s);
  create = λ n now s. create_unless (any (same_signal n) s) n now s;
}

create_unless-created :
    (clash : Bool) (n : NewSignal ℤ String) (now : ℕ) (s s' : List Stored) (d : Stored)
    → create_unless clash n now s ≡ (ok d, s')
    → (s' ≡ s ++ d ∷ []) × (d.fields ≡ n)
create_unless-created true n now s s' d h = absurd (cc h)
create_unless-created false n now s s' d h = (cc h, cc h)

abbrev list_signals-IsSignalStore : IsSignalStore list_signals
list_signals-IsSignalStore = record {
  docs = λ s. s;
  created = λ n now s s' d h. create_unless-created (any (same_signal n) s) n now s s' d h;
  clash = λ n now s h. rw h refl;
}

abbrev same : ℤ → ℤ
same x = x

abbrev dates : String → Option ℕ
dates text = some 5

abbrev buy : SignalMessage ℤ String
buy = record {
  symbol = "TCS";
  exchange = none;
  direction = "BUY";
  entry_price = pos 100;
  target_price = pos 110;
  stop_loss = pos 95;
  confidence = pos 1;
  reasoning = none;
  indicators = none;
  generated_at = some "2026-01-01";
}

abbrev nothing_yet : World (List Stored) ℤ String
nothing_yet = record { store = []; broadcast = [] }

abbrev persist :
    SignalMessage ℤ String
    → ℕ
    → World (List Stored) ℤ String
    → Result CreateError (Option Stored) × World (List Stored) ℤ String
persist = persist_signal list_signals whole same (pos 0) dates "{}"

abbrev the_signal : Stored
the_signal =
    stored_as
      (record {
        symbol = "TCS";
        exchange = "NSE";
        direction = "BUY";
        entry_price = pos 100;
        target_price = pos 110;
        stop_loss = pos 95;
        confidence = pos 1;
        reasoning = none;
        indicators = some "{}";
        generated_at = some 5;
      })
      7

stored_run : (persist buy 7 nothing_yet).0 ≡ ok (some the_signal)
unfolding persist_signal is_duplicate_setup to_signal_document
stored_run = refl

retried_signal_is_ignored_example :
    let w' = (persist buy 7 nothing_yet).1 in persist buy 9 w' ≡ (ok none, w')
retried_signal_is_ignored_example =
    retried_signal_is_ignored list_signals whole same (pos 0) dates "{}" list_signals-IsSignalStore
      buy "2026-01-01" 7 9 nothing_yet the_signal refl (ground (arith, eq_iff "2026-01-01" ""))
      stored_run

abbrev hit : List (EvaluateRequestSignal ℤ String) → Option (List (UpstreamOutcome ℤ))
hit signals = some (
    record {
      id = some "id";
      symbol = "TCS";
      outcome = target_hit;
      exit_price = none;
      pnl_pct = some (pos 10);
    }
    ∷ [])

abbrev unreachable : List (EvaluateRequestSignal ℤ String) → Option (List (UpstreamOutcome ℤ))
unreachable signals = none

hit_run :
    (evaluate_performance whole same same
      (pos 2)
      (pos 8)
      (pos 7)
      list_signals
      hit
      40
      (the_signal ∷ [])).summary.wins
    ≡ 1
unfolding evaluate_performance index_outcomes index_from
hit_run = refl
