-- ===== src/Chat/Tests.antt =====
-- Runs of the chat services on lists of turns.
use ai_trader_api.Base.{
  ℕ, ◌≡◌, refl, ◌↔◌, ◌⊎◌, ◌+◌, ◌≤◌, ◌<◌, true, false, Option, none, some, List, [], ◌∷◌, length,
  filter, arith, eq_iff, or_else, is_some,
}
use mathlib.Core.Option
use ai_trader_api.Base.Collection.{update_first}
use ai_trader_api.MarketSession.{day_start}
use ai_trader_api.Chat.{
  ChatTurn, UpstreamTurn, StoredEvent, event, Ambient, record_turn, resolve_session_id,
  session_gap_ms, cap_events, has_turn_id,
}
use ai_trader_api.Chat.Sample.{turn_store, turn_store-IsTurnStore}
use ai_trader_api.Chat.Sessions.{second_report_keeps_first, session_is_own}
use ai_trader_api.Chat.Budget.{
  BudgetReads, IsAggregation, assert_within_budget, assert_within_budget_lem, cap_for, sum_tokens,
  is_today,
}

abbrev Turns : Type 0
Turns = List (ChatTurn ℕ)

abbrev env : Ambient
env = record { now = 100000000; fresh_id = "fresh" }

abbrev answered : UpstreamTurn ℕ
answered = record {
  turn_id = some "t1";
  symbol = some "TCS";
  exchange = none;
  message = some "hold";
  events = none;
  usage = none;
  stop_reason = none;
}

abbrev recorded : ChatTurn ℕ
recorded = record {
  turn_id = "t1";
  session_id = "fresh";
  user_id = "u";
  symbol = "TCS";
  exchange = "NSE";
  message = "why?";
  answer = "hold";
  events = [];
  usage = none;
  stop_reason = none;
  created_at = 100000000;
  updated_at = 100000000;
}

abbrev afterwards : Ambient
afterwards = record { now = 100000007; fresh_id = "other" }

-- The first report stores the turn that the second one finds.
first_report_run :
    record_turn turn_store (λ x. x) env "u" "why?" answered false []
    ≡ (some recorded, recorded ∷ [])
unfolding record_turn resolve_session_id cap_events
first_report_run = refl

second_report_keeps_first_example :
    let (first, s') = record_turn turn_store (λ x. x) env "u" "why?" answered false [] in
    let (second, s'') = record_turn turn_store (λ x. x) afterwards "v" "what?" answered true s' in
    (is_some first ≡ true)
    × (second ≡ Option.map {A = ChatTurn ℕ} (λ t. record t { updated_at = 100000007 }) first)
    × (s'' ≡ update_first (has_turn_id "t1") (λ t. record t { updated_at = 100000007 }) s')
second_report_keeps_first_example =
    second_report_keeps_first turn_store (λ x. x) env turn_store-IsTurnStore "u" "why?" "t1"
      answered refl (ground (arith, eq_iff "t1" "")) false [] afterwards "v" "what?" answered true
      refl

abbrev earlier : ChatTurn ℕ
earlier = record {
  turn_id = "t0";
  session_id = "s0";
  user_id = "u";
  symbol = "TCS";
  exchange = "NSE";
  message = "";
  answer = "";
  events = [];
  usage = some 300000;
  stop_reason = none;
  created_at = 99000000;
  updated_at = 99000000;
}

session_is_own_example :
    let session = resolve_session_id turn_store (λ x. x) env "u" "TCS" false (earlier ∷ []) in
    (session ≡ "fresh")
    ⊎ ((t : ChatTurn ℕ) × (t.session_id ≡ session)
        × (t.user_id ≡ "u")
        × (t.symbol ≡ "TCS")
        × (100000000 < t.created_at + session_gap_ms))
session_is_own_example =
    session_is_own turn_store (λ x. x) env turn_store-IsTurnStore "u" "TCS" false (earlier ∷ [])

abbrev three : List (StoredEvent ℕ)
three = event 1 ∷ event 2 ∷ event 3 ∷ []

abbrev tokens : ChatTurn ℕ → ℕ
tokens t = or_else t.usage 0

abbrev row_of : Turns → Option (ℕ × ℕ)
row_of [] = none
row_of (t ∷ ts) = some (sum_tokens tokens (t ∷ ts), length (t ∷ ts))

abbrev reads : BudgetReads Turns ℕ
reads = record {
  spent = λ p s. some (row_of (filter p s));
  override = λ user s. some (some 300000);
}

row_of-none : (ts : Turns) → some (row_of ts) ≡ some none → ts ≡ []
row_of-none [] e = refl
row_of-none (t ∷ ts) e = cc

row_of-some :
    (ts : Turns) (sum count : ℕ)
    → some (row_of ts) ≡ some (some (sum, count))
    → (sum ≡ sum_tokens tokens ts) × (count ≡ length ts)
row_of-some [] sum count e = cc
row_of-some (t ∷ ts) sum count e = (cc, cc)

reads-IsAggregation : IsAggregation reads tokens
reads-IsAggregation = record {
  docs = λ s. s;
  no_row = λ p s e. row_of-none (filter p s) e;
  row = λ p s sum count e. row_of-some (filter p s) sum count e;
}

assert_within_budget_lem_example :
    (assert_within_budget reads 400000 "u" 100000000 (earlier ∷ []) ≡ false) ↔ (
      cap_for reads 400000 "u" (earlier ∷ [])
      ≤ sum_tokens tokens (filter (is_today "u" 100000000) (earlier ∷ [])))
unfolding reads-IsAggregation day_start
assert_within_budget_lem_example =
    assert_within_budget_lem reads 400000 tokens reads-IsAggregation "u" 100000000 (earlier ∷ [])
      (some (300000, 1)) refl
