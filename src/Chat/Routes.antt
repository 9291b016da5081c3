-- ===== src/Chat/Routes.antt =====
-- src/chat/chat.controller.ts: what a signed-in user reads back. `parse_int` is `parseInt(s, 10)`.
use ai_trader_api.Base.{ℕ, String, Bool, Option, List}
use ai_trader_api.Base.Text.{Text}
use ai_trader_api.Requests.{Parsed}
use ai_trader_api.Requests.Limits.{parse_limit}
use ai_trader_api.Chat.{Ambient, ChatTurn, TurnStore, get_latest_for_symbol, get_turn}
use ai_trader_api.Chat.Runs.{StrategyRun, list_strategy_runs}

module _ {S J : Type 0} (turns : TurnStore S J) (upper : String → String) (env : Ambient) where
  pub latest_for_symbol : String → String → S → List (ChatTurn J)
  latest_for_symbol user symbol s = get_latest_for_symbol turns upper env user symbol s

  pub turn_of : String → String → S → Option (ChatTurn J)
  turn_of user turn_id s = get_turn turns upper env user turn_id s

module _ {J : Type 0} (kind_of label_of : J → Option String) (detail_of : J → Option J)
    (empty : J) where
  pub list_strategies :
      {S : Type 0}
      → ((ChatTurn J → Bool) → ℕ → S → List (ChatTurn J))
      → (Text → Parsed)
      → String
      → Option Text
      → S
      → List (StrategyRun J)
  list_strategies find_newest parse_int user limit s =
      list_strategy_runs kind_of label_of detail_of empty find_newest user
        (parse_limit parse_int limit 50) s
