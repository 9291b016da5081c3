-- ===== src/Chat.antt =====
-- src/chat: the record of chat turns (chat-sessions.service.ts, schemas/chat-turn.schema.ts); the
-- daily budget is Chat/Budget. The JSON of an event and of the usage is the type `J`. The queries of
-- the turn collection are the record `TurnStore`, with `IsTurnStore` for their documented meaning.
-- `upper` stands for `toUpperCase`; instants are milliseconds.
pub mod Capping
pub mod Sessions
pub mod Budget
pub mod Routes
pub mod Runs
pub mod Sample
mod Tests
use ai_trader_api.Base.{
  ℕ, ◌≡◌, ◌+◌, ◌-◌, ◌*◌, ◌/◌, ◌≤◌, String, Bool, true, false, ◌&&◌, Option, none, some, List, [],
  ◌∷◌, ◌++◌, leb, ltb, str_eq, if◌then◌else◌, or_else, length, take, drop, find?,
}

-- `SESSION_GAP_MS`, `MAX_STORED_EVENTS`.
abbrev pub session_gap_ms : ℕ
session_gap_ms = 2 * 60 * 60 * 1000

abbrev pub max_stored_events : ℕ
max_stored_events = 200

-- An element of the stored stream: an event as it came, or the marker of those left out.
pub data StoredEvent (J : Type 0) : Type 0 where
  event : J → StoredEvent J
  truncated : (dropped : ℕ) → StoredEvent J

-- `UpstreamTurn`.
pub record UpstreamTurn (J : Type 0) : Type 0 where
  pub turn_id : Option String
  pub symbol : Option String
  pub exchange : Option String
  pub message : Option String
  pub events : Option (List (StoredEvent J))
  pub usage : Option J
  pub stop_reason : Option String

-- `ChatTurn`.
pub record ChatTurn (J : Type 0) : Type 0 where
  pub turn_id : String
  pub session_id : String
  pub user_id : String
  pub symbol : String
  pub exchange : String
  pub message : String
  pub answer : String
  pub events : List (StoredEvent J)
  pub usage : Option J
  pub stop_reason : Option String
  pub created_at : ℕ
  pub updated_at : ℕ

-- The queries of the turn collection.
pub record TurnStore (S J : Type 0) : Type 0 where
  -- `findOneAndUpdate({ turnId }, { $setOnInsert }, { upsert: true, new: true })`; the times are those
  -- that `timestamps: true` gives a new turn.
  pub set_on_insert : String → ChatTurn J → S → ChatTurn J × S
  -- `findOne(p).sort({ createdAt: -1 })`
  pub find_newest : (ChatTurn J → Bool) → S → Option (ChatTurn J)
  -- `find(p).sort({ createdAt: 1 })`
  pub find_oldest_first : (ChatTurn J → Bool) → S → List (ChatTurn J)
  pub find_one : (ChatTurn J → Bool) → S → Option (ChatTurn J)

module _ {J : Type 0} where
  abbrev pub has_turn_id : String → ChatTurn J → Bool
  has_turn_id id t = str_eq t.turn_id id

  abbrev pub is_about : String → String → ChatTurn J → Bool
  is_about user symbol t = str_eq t.user_id user && str_eq t.symbol symbol

  -- `capEvents`.
  unfoldable pub cap_events : List (StoredEvent J) → ℕ → List (StoredEvent J)
  cap_events events max =
      if leb (length events) max
      then events
      else (let half = max / 2 in
          take half events
          ++ truncated (length events - max) ∷ drop (length events - (max - half)) events)

-- What a request finds outside the store.
pub record Ambient : Type 0 where
  pub now : ℕ
  pub fresh_id : String

module _ {S J : Type 0} (turns : TurnStore S J) (upper : String → String) (env : Ambient) where
  -- The conversation that a previous turn offers to the next one.
  abbrev pub continued : Option (ChatTurn J) → String
  continued none = env.fresh_id
  continued (some previous) =
      if ltb env.now (previous.created_at + session_gap_ms)
      then previous.session_id
      else env.fresh_id

  -- `resolveSessionId`.
  unfoldable pub resolve_session_id : String → String → Bool → S → String
  resolve_session_id user symbol true s = env.fresh_id
  resolve_session_id user symbol false s = continued (turns.find_newest (is_about user symbol) s)

  abbrev pub new_turn : String → String → String → UpstreamTurn J → Bool → S → ChatTurn J
  new_turn turn_id user question result force_new s =
      let symbol = upper (or_else result.symbol "") in
      record {
        turn_id = turn_id;
        session_id = resolve_session_id user symbol force_new s;
        user_id = user;
        symbol = symbol;
        exchange = upper (or_else result.exchange "NSE");
        message = question;
        answer = or_else result.message "";
        events = cap_events (or_else result.events []) max_stored_events;
        usage = result.usage;
        stop_reason = result.stop_reason;
        created_at = env.now;
        updated_at = env.now;
      }

  -- `recordTurn`; an upstream turn without an id, or with an empty one, is not recorded.
  unfoldable pub record_turn : String → String → UpstreamTurn J → Bool → S → Option (ChatTurn J) × S
  record_turn user question result force_new s = elim result.turn_id [
    | none ↦ (none, s)
    | some id ↦
        if str_eq id ""
        then (none, s)
        else (let (t, s') =
              turns.set_on_insert id (new_turn id user question result force_new s) s in
            (some t, s'))
  ]

  -- `getSession`, `getLatestForSymbol`.
  pub get_session : String → String → S → List (ChatTurn J)
  get_session user session s =
      turns.find_oldest_first (λ t. str_eq t.user_id user && str_eq t.session_id session) s

  pub get_latest_for_symbol : String → String → S → List (ChatTurn J)
  get_latest_for_symbol user symbol s = elim (turns.find_newest (is_about user (upper symbol)) s) [
    | none ↦ []
    | some latest ↦ get_session user latest.session_id s
  ]

  -- `getTurn`; `none` is the not-found exception.
  pub get_turn : String → String → S → Option (ChatTurn J)
  get_turn user id s = turns.find_one (λ t. str_eq t.user_id user && has_turn_id id t) s
