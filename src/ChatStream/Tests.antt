-- ===== src/ChatStream/Tests.antt =====
-- Runs of the chat stream on a list of turns. The JSON of an event is one of three, and a frame of the
-- signals service is told by the first letter of its data.
use ai_trader_api.Base.{
  ℕ, ◌≡◌, refl, inr, ◌⊎◌, String, true, false, Option, none, some, List, [], ◌∷◌, ◌++◌, map, length,
  arith, eq_iff, ◌==◌, if◌then◌else◌,
}
use ai_trader_api.Base.Text.{is_space, trim, trim_start, Text, units}
use ai_trader_api.Base.Action.{err}
use ai_trader_api.Sse.{
  cut, data_of, is_event, join_lines, lines_from, payload_of, starts_with, push,
}
use ai_trader_api.Sse.Chunks.{joined}
use ai_trader_api.Chat.{
  cap_events, record_turn, resolve_session_id, ChatTurn, event, UpstreamTurn, Ambient,
}
use ai_trader_api.Chat.Sample.{turn_store, turn_store-IsTurnStore}
use ai_trader_api.Chat.Budget.{BudgetReads, assert_within_budget}
use ai_trader_api.HttpClient.{Json, Request, Fetched, network_error}
use ai_trader_api.HttpClient.Retry.{logged}
use ai_trader_api.ChatStream.{
  finish_recorded, finish, record_asked, absorb, handle, on_close, on_data, on_error, EventReader,
  Reading, Stream, chunk, recorded_event, end_call, Happening, arrived, broke, finished, left,
  settled, Asked, absorb_frames, run, started, open_stream, over_budget,
}
use ai_trader_api.ChatStream.Chunks.{after, run-push}
use ai_trader_api.ChatStream.Records.{left_turn_is_recorded, only_upstream_end_records}
use ai_trader_api.ChatStream.Ending.{scan, run-IsWellSent}
use ai_trader_api.ChatStream.Opening.{open_stream_sends}

data Event : Type 0 where
  start step answer : Event

abbrev parse_event : Text → Option Event
parse_event [] = none
parse_event (c ∷ s) = if c == 115 then some start else if c == 97 then some answer else some step

abbrev kind_of : Event → Option String
kind_of start = some "turn_started"
kind_of step = some "step"
kind_of answer = some "result"

abbrev turn : UpstreamTurn Event
turn = record {
  turn_id = some "t1";
  symbol = some "TCS";
  exchange = none;
  message = some "hold";
  events = none;
  usage = none;
  stop_reason = none;
}

abbrev reader : EventReader Event
reader = record {
  parse = parse_event;
  stringify = λ e. [];
  is_truthy = λ e. true;
  kind = kind_of;
  detail = some;
  turn = λ e. turn;
}

abbrev asked : Asked
asked = record {
  user_id = "u";
  symbol = "TCS";
  exchange = "NSE";
  message = "why?";
  new_session = none;
}

abbrev env : Ambient
env = record { now = 100000000; fresh_id = "fresh" }

abbrev same : Text → Text
same t = t

abbrev upper : String → String
upper s = s

abbrev play : List (Happening Text) → Stream Text Event (List (ChatTurn Event))
play hs = run reader same turn_store upper asked hs (started [])

abbrev half : Text
half = units "data: s"

abbrev other_half : Text
other_half = 10 ∷ 10 ∷ []

abbrev whole_answer : Text
whole_answer = units "data: a" ++ (10 ∷ 10 ∷ [])

-- A turn that is answered and recorded.
answered_run :
    (play (
      arrived half
      ∷ arrived other_half
      ∷ arrived whole_answer
      ∷ finished (some env)
      ∷ settled
      ∷ left (some env)
      ∷ [])).sent
    ≡ chunk half ∷ chunk other_half ∷ chunk whole_answer ∷ recorded_event "t1" ∷ end_call ∷ []
unfolding run handle on_close finish_recorded finish on_data absorb_frames push cut is_event data_of
    payload_of join_lines lines_from starts_with absorb record_asked is_space trim trim_start
    cap_events record_turn resolve_session_id
answered_run = refl

-- A turn whose upstream breaks, after which the reader leaves, is not recorded.
broken_run : (play (arrived half ∷ arrived other_half ∷ broke ∷ left (some env) ∷ [])).store ≡ []
unfolding run handle on_close on_error on_data
broken_run = refl

-- Nor is one whose reader leaves between the result and the end, which aborts the upstream.
aborted_run : (play (arrived whole_answer ∷ left (some env) ∷ broke ∷ [])).store ≡ []
unfolding run handle on_error on_close on_data absorb_frames push cut is_event data_of payload_of
    join_lines lines_from starts_with absorb
aborted_run = refl

run-push_example :
    run reader same turn_store upper asked (map arrived (half ∷ other_half ∷ [])) (started [])
    ≡ after reader (half ∷ other_half ∷ []) (push [] (joined half (other_half ∷ []))) (started [])
run-push_example = run-push reader same turn_store upper asked half (other_half ∷ []) (started [])

abbrev begun : Reading Event
begun = record { result = none; turn_id = some "t1"; seen = start ∷ [] }

begun_run :
    absorb_frames reader
      (push [] (joined half (other_half ∷ []))).0
      (record { result = none; turn_id = none; seen = [] })
    ≡ begun
unfolding absorb_frames push cut is_event data_of payload_of join_lines lines_from starts_with
    absorb
begun_run = refl

left_turn_is_recorded_example :
    (session : String) × ((run reader same turn_store upper asked
        (map arrived (half ∷ other_half ∷ []) ++ left (some env) ∷ [])
        (started [])).store
      ≡ record {
        turn_id = "t1";
        session_id = session;
        user_id = "u";
        symbol = "TCS";
        exchange = "NSE";
        message = "why?";
        answer = "Stopped before this analysis finished.";
        events = event start ∷ [];
        usage = none;
        stop_reason = some "cancelled";
        created_at = 100000000;
        updated_at = 100000000;
      }
        ∷ [])
left_turn_is_recorded_example =
    left_turn_is_recorded reader same turn_store upper asked turn_store-IsTurnStore half
      (other_half ∷ []) [] env begun "t1" begun_run refl refl (ground (arith, eq_iff "t1" "")) refl

abbrev held : Stream Text Event (List (ChatTurn Event))
held = record {
  buffer = [];
  reading = record { result = some turn; turn_id = none; seen = [] };
  sent = [];
  is_ended = false;
  is_aborted = false;
  waiting = none;
  store = [];
}

only_upstream_end_records_example :
    (run reader same turn_store upper asked (left (some env) ∷ broke ∷ []) held).store ≡ []
only_upstream_end_records_example =
    only_upstream_end_records reader same turn_store upper asked (left (some env) ∷ broke ∷ []) held
      (refl, (refl, tt)) (inr refl)

run-IsWellSent_example :
    let t =
      run reader same turn_store upper asked
        (arrived half ∷ broke ∷ finished none ∷ [])
        (started []) in
    scan false t.sent ≡ some t.is_ended
run-IsWellSent_example =
    run-IsWellSent reader same turn_store upper asked (arrived half ∷ broke ∷ finished none ∷ [])
      (started []) refl

-- A budget of nothing, and a network that is down.
abbrev broke_reads : BudgetReads (List (ChatTurn Event)) Event
broke_reads = record { spent = λ p s. some (some (5, 1)); override = λ user s. none }

abbrev down : Request Event → ℕ → Fetched Event × ℕ
down req w = (network_error "down", w)

abbrev json : Json Event
json = record { truthy = λ e. true; member = λ name e. none }

open_stream_sends_example :
    let (reply, (w', log)) =
      open_stream {Chunk = Text} broke_reads 5 json (logged down) [] "u" 7 start [] (0, []) in
    ((assert_within_budget broke_reads 5 "u" 7 [] ≡ true) × (length log ≡ 1))
    ⊎ ((assert_within_budget broke_reads 5 "u" 7 [] ≡ false)
        × (reply ≡ err over_budget)
        × (log ≡ []))
open_stream_sends_example = open_stream_sends broke_reads 5 json down [] "u" 7 start [] 0
