-- ===== src/ChatStream.antt =====
-- src/signals/chat-stream.controller.ts: a chat turn as a live stream. What happens after the response
-- has started is a sequence of happenings, each the run of one handler up to its `await`; `settled` is
-- the rest of `finish`, once the record call is back. A store that cannot be reached is `none` in place
-- of the time and the fresh id. `decode` is `chunk.toString('utf8')`; what is kept of the events is in
-- the child module Events.
mod Events
pub mod Chunks
pub mod Records
pub mod Ending
pub mod Opening
mod Tests
use ai_trader_api.Base.{
  ℕ, String, Bool, true, false, not, ◌&&◌, Option, none, some, List, [], ◌∷◌, ◌++◌, map, str_eq,
  if◌then◌else◌, or_else, is_some,
}
use ai_trader_api.Base.Text.{Text}
use ai_trader_api.Base.Action.{Result, ok, err, Action}
use ai_trader_api.Sse.{push, data_of}
use ai_trader_api.Chat.{UpstreamTurn, ChatTurn, TurnStore, Ambient, StoredEvent, event, record_turn}
use ai_trader_api.Chat.Budget.{BudgetReads, assert_within_budget}
use ai_trader_api.HttpClient.{Json, Request, Response, Fetched, UpstreamError, chat_stream}
unfoldable pub use Events.*

-- The calls of the response: a chunk as it came, the two events of the controller, and `end`.
pub data Sent (Chunk : Type 0) : Type 0 where
  chunk : Chunk → Sent Chunk
  recorded_event : (turn_id : String) → Sent Chunk
  error_event end_call : Sent Chunk

-- A stream that has started. `waiting` is the answer that `finish` waits for: the id that was stored.
pub record Stream (Chunk J S : Type 0) : Type 0 where
  pub buffer : Text
  pub reading : Reading J
  pub sent : List (Sent Chunk)
  pub is_ended : Bool
  pub is_aborted : Bool
  pub waiting : Option (Option String)
  pub store : S

pub data Happening (Chunk : Type 0) : Type 0 where
  -- 'data' and 'error' of the upstream body.
  arrived : Chunk → Happening Chunk
  broke : Happening Chunk
  -- 'end' of the upstream body, and 'close' of the response.
  finished left : Option Ambient → Happening Chunk
  settled : Happening Chunk

-- Who asks, and about what.
pub record Asked : Type 0 where
  pub user_id : String
  pub symbol : String
  pub exchange : String
  pub message : String
  pub new_session : Option Bool

module _ {Chunk J S : Type 0} where
  -- `res.write` of an event of the controller, and `res.end`, both under `!res.writableEnded`.
  abbrev pub write_event : Sent Chunk → Stream Chunk J S → Stream Chunk J S
  write_event x t = if t.is_ended then t else record t { sent = t.sent ++ x ∷ [] }

  abbrev pub end_once : Stream Chunk J S → Stream Chunk J S
  end_once t =
      if t.is_ended then t else record t { sent = t.sent ++ end_call ∷ []; is_ended = true }

  abbrev pub announce : Option String → Stream Chunk J S → Stream Chunk J S
  announce none t = t
  announce (some id) t = write_event (recorded_event id) t

  -- The rest of `finish`, once the record call is back.
  pub finish_recorded : Stream Chunk J S → Stream Chunk J S
  finish_recorded t = elim t.waiting [
    | none ↦ t
    | some stored ↦ end_once (announce stored (record t { waiting = none }))
  ]

  -- The handler of 'error'.
  pub on_error : Stream Chunk J S → Stream Chunk J S
  on_error t = end_once (write_event error_event t)

abbrev pub stored_id : {J : Type 0} → Option (Option (ChatTurn J)) → Option String
stored_id none = none
stored_id (some none) = none
stored_id (some (some t)) = some t.turn_id

-- What is recorded of a turn that the reader walked away from.
abbrev pub cancelled : {J : Type 0} → Asked → Reading J → UpstreamTurn J
cancelled asked r = record {
  turn_id = r.turn_id;
  symbol = some asked.symbol;
  exchange = some asked.exchange;
  message = some "Stopped before this analysis finished.";
  events = some (map event r.seen);
  usage = none;
  stop_reason = some "cancelled";
}

module _ {J S : Type 0} (turns : TurnStore S J) (upper : String → String) (asked : Asked) where
  -- `recordTurn` as the controller calls it; `none` is the exception.
  pub record_asked : Option Ambient → UpstreamTurn J → S → Option (Option (ChatTurn J)) × S
  record_asked none turn s = (none, s)
  record_asked (some env) turn s =
      let (stored, s') =
        record_turn turns upper env asked.user_id asked.message turn
          (or_else asked.new_session false) s in
      (some stored, s')

module _ {Chunk J S : Type 0} (turns : TurnStore S J) (upper : String → String)
    (asked : Asked) where
  -- `finish` up to its `await`, or whole where there is no result.
  pub finish : Option Ambient → Stream Chunk J S → Stream Chunk J S
  finish env t = elim t.reading.result [
    | none ↦ end_once t
    | some turn ↦
        let (stored, s') = record_asked turns upper asked env turn t.store in
        record t { waiting = some (stored_id stored); store = s' }
  ]

  -- `recordCancelled`; a turn without an id never started.
  pub record_cancelled : Option Ambient → Stream Chunk J S → Stream Chunk J S
  record_cancelled env t = elim t.reading.turn_id [
    | none ↦ t
    | some id ↦ if str_eq id "" then t else record t {
      store = (record_asked turns upper asked env (cancelled asked t.reading) t.store).1;
    }
  ]

  -- The two handlers of 'close': the upstream is aborted, and the turn is recorded as cancelled, where
  -- the response is not ended and, for the second, no result has arrived.
  pub on_close : Option Ambient → Stream Chunk J S → Stream Chunk J S
  on_close env t =
      if t.is_ended
      then t
      else (let aborted = record t { is_aborted = true } in
          elim t.reading.result [ some turn ↦ aborted | none ↦ record_cancelled env aborted ])

module _ {Chunk J S : Type 0} (reader : EventReader J) (decode : Chunk → Text) where
  -- The handler of 'data'.
  pub on_data : Chunk → Stream Chunk J S → Stream Chunk J S
  on_data c t =
      let (frames, rest) = push t.buffer (decode c) in
      record t {
        buffer = rest;
        reading = absorb_frames reader frames t.reading;
        sent = t.sent ++ chunk c ∷ [];
      }

module _ {Chunk J S : Type 0} (reader : EventReader J) (decode : Chunk → Text)
    (turns : TurnStore S J) (upper : String → String) (asked : Asked) where
  pub handle : Happening Chunk → Stream Chunk J S → Stream Chunk J S
  handle (arrived c) t = on_data reader decode c t
  handle broke t = on_error t
  handle (finished env) t = finish turns upper asked env t
  handle (left env) t = on_close turns upper asked env t
  handle settled t = finish_recorded t

  pub run : List (Happening Chunk) → Stream Chunk J S → Stream Chunk J S
  run [] t = t
  run (h ∷ hs) t = run hs (handle h t)

-- Why a stream does not start; nothing has been written then.
pub data StreamError (J : Type 0) : Type 0 where
  over_budget : StreamError J
  upstream_error : UpstreamError J → StreamError J

abbrev pub started : {Chunk J S : Type 0} → S → Stream Chunk J S
started s = record {
  buffer = [];
  reading = record { result = none; turn_id = none; seen = [] };
  sent = [];
  is_ended = false;
  is_aborted = false;
  waiting = none;
  store = s;
}

abbrev opened :
    {Chunk J S W : Type 0}
    → S
    → Result (UpstreamError J) (Response J) × W
    → Result (StreamError J) (Stream Chunk J S) × W
opened s (ok res, w) = (ok (started s), w)
opened s (err e, w) = (err (upstream_error e), w)

-- `stream` up to the point where the handlers are installed, on a request that is valid; `payload` is
-- the JSON of the turn that is sent.
module _ {Chunk J S W : Type 0} (reads : BudgetReads S J) (cap : ℕ) (json : Json J)
    (fetch : Request J → W → Fetched J × W) (base : Text) where
  pub open_stream : String → ℕ → J → S → Action (StreamError J) W (Stream Chunk J S)
  open_stream user now payload s w =
      if assert_within_budget reads cap user now s
      then opened s (chat_stream json fetch base payload w)
      else (err over_budget, w)
