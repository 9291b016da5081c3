-- ===== src/ChatStream/Events.antt =====
-- src/signals/chat-stream.controller.ts: what is kept of the events of a turn. The JSON of an event is
-- read by `EventReader`.
use ai_trader_api.Base.{
  String, Bool, false, ◌&&◌, Option, none, some, List, [], ◌∷◌, ◌++◌, str_eq, if◌then◌else◌,
}
use ai_trader_api.Base.Text.{Text}
use ai_trader_api.Sse.{data_of}
use ai_trader_api.Chat.{UpstreamTurn}

-- What the handlers read of the JSON of an event: `turn` reads its fields as an upstream turn.
pub record EventReader (J : Type 0) : Type 0 where
  -- `JSON.parse`, `none` where it throws, and `JSON.stringify`.
  pub parse : Text → Option J
  pub stringify : J → Text
  pub is_truthy : J → Bool
  pub kind : J → Option String
  pub detail : J → Option J
  pub turn : J → UpstreamTurn J

-- `result`, `turnId` and `seen`.
pub record Reading (J : Type 0) : Type 0 where
  pub result : Option (UpstreamTurn J)
  pub turn_id : Option String
  pub seen : List J

module _ {J : Type 0} (reader : EventReader J) where
  abbrev pub has_kind : String → J → Bool
  has_kind k e = elim (reader.kind e) [ none ↦ false | some x ↦ str_eq x k ]

  abbrev pub result_of : J → Option (UpstreamTurn J)
  result_of e = elim (reader.detail e) [
    | none ↦ none
    | some d ↦ if has_kind "result" e && reader.is_truthy d then some (reader.turn d) else none
  ]

  abbrev pub started_id : J → Option String
  started_id e = elim (reader.detail e) [ none ↦ none | some d ↦ (reader.turn d).turn_id ]

  -- One event that could be read.
  unfoldable pub absorb : J → Reading J → Reading J
  absorb e r =
      if reader.is_truthy e
      then elim (result_of e) [
        | some turn ↦ record r { result = some turn }
        | none ↦ record r {
          turn_id = if has_kind "turn_started" e then started_id e else r.turn_id;
          seen = r.seen ++ e ∷ [];
        }
      ]
      else r

  -- The loop over the frames of a chunk.
  unfoldable pub absorb_frames : List Text → Reading J → Reading J
  absorb_frames [] r = r
  absorb_frames (raw ∷ frames) r = elim (data_of reader.parse reader.stringify raw) [
    | none ↦ absorb_frames frames r
    | some e ↦ absorb_frames frames (absorb e r)
  ]
