-- ===== src/Gateway.antt =====
-- src/signals/signals.gateway.ts: the in-memory state of the Socket.IO gateway. The maps are
-- `Base.Dict`; what a handler does to a socket or asks of the signals service is appended to a log,
-- newest first. The JSON values that the gateway only relays are the type `J`.
-- `upper` stands for `String.prototype.toUpperCase`.
pub mod Pairs
pub mod Watchers
pub mod Increments
pub mod Subscriptions
pub mod Upstream
pub mod History
pub mod Messages
pub mod Connection
mod Tests
use Prim.Native.String
use ai_trader_api.Base.{
  ℕ, ◌+◌, ◌-◌, String, Bool, true, false, Option, none, some, List, [], ◌∷◌, leb, ◌==◌, str_eq,
  if◌then◌else◌, or_else, take, map,
}
use ai_trader_api.Base.Dict.{Dict, lookup, insert, erase}
use Pairs.{pair_key, split_pair}

pub data Action : Type 0 where
  subscribe unsubscribe : Action

pub data Effect : Type 0 where
  join leave : (client room : String) → Effect
  emit_subscribed : (client room : String) → Effect
  call_internal : Action → (symbol exchange : String) → Effect

-- `ChartState`.
pub record ChartState (J : Type 0) : Type 0 where
  pub interval : Option String
  pub indicators : List J

pub record Gateway (J : Type 0) : Type 0 where
  pub watcher_counts : Dict ℕ
  pub client_watching : Dict (Dict String)
  pub chart_state_by_user : Dict (ChartState J)
  pub effects : List Effect

-- The body of `subscribe_symbol` and `unsubscribe_symbol`.
pub record SymbolMessage : Type 0 where
  pub symbol : Option String
  pub exchange : Option String

-- The body of `chart_state`; `indicators` is `none` where it is no array.
pub record ChartMessage (J : Type 0) : Type 0 where
  pub interval : Option String
  pub indicators : Option (List J)

-- The falsy texts are `undefined` and the empty one.
abbrev pub truthy : Option String → Option String
truthy none = none
truthy (some s) = if str_eq s "" then none else some s

-- `o === s`.
abbrev pub is_text : Option String → String → Bool
is_text none s = false
is_text (some t) s = str_eq t s

abbrev pub symbol_room : String → String
symbol_room symbol = String.◌++◌ "symbol:" symbol

abbrev pub max_chart_state_indicators : ℕ
max_chart_state_indicators = 20

abbrev pub active_pairs : Dict ℕ → List (String × String)
active_pairs = map (λ entry. split_pair entry.0)

module _ {J : Type 0} where
  abbrev pub perform : Effect → Gateway J → Gateway J
  perform e g = record g { effects = e ∷ g.effects }

  pub decrement_watcher : String → String → Gateway J → Gateway J
  decrement_watcher symbol exchange g =
      let key = pair_key symbol exchange in
      let count = or_else (lookup key g.watcher_counts) 0 in
      if leb count 1
      then perform (call_internal unsubscribe symbol exchange)
          (record g { watcher_counts = erase key g.watcher_counts })
      else record g { watcher_counts = insert key (count - 1) g.watcher_counts }

  -- The loop of `handleDisconnect`.
  pub decrement_all : Dict String → Gateway J → Gateway J
  decrement_all [] g = g
  decrement_all ((symbol, exchange) ∷ rest) g =
      decrement_all rest (decrement_watcher symbol exchange g)

  pub handle_disconnect : String → Gateway J → Gateway J
  handle_disconnect client g =
      let closed = record g { client_watching = erase client g.client_watching } in
      elim (lookup client g.client_watching) [
        | none ↦ closed
        | some watching ↦ decrement_all watching closed
      ]

  -- `watching`, created on first use.
  abbrev pub watching_of : String → Gateway J → Dict String
  watching_of client g = or_else (lookup client g.client_watching) []

  abbrev pub leave_previous : String → Option String → Gateway J → Gateway J
  leave_previous symbol none g = g
  leave_previous symbol (some previous) g = decrement_watcher symbol previous g

  -- The count after `watcherCounts.set(pairKey, count)`, and the call on the first watcher.
  pub increment_watcher : String → String → Gateway J → Gateway J
  increment_watcher symbol exchange g =
      let key = pair_key symbol exchange in
      let count = or_else (lookup key g.watcher_counts) 0 + 1 in
      let counted = record g { watcher_counts = insert key count g.watcher_counts } in
      if count == 1 then perform (call_internal subscribe symbol exchange) counted else counted

  pub start_watching : String → String → String → Gateway J → Gateway J
  start_watching client symbol exchange g =
      let watching = watching_of client g in
      let previous = lookup symbol watching in
      if is_text previous exchange
      then record g { client_watching = insert client watching g.client_watching }
      else (let left = leave_previous symbol (truthy previous) g in
          increment_watcher symbol exchange (record left {
            client_watching = insert client (insert symbol exchange watching) left.client_watching;
          }))

  pub stop_watching : String → String → String → Gateway J → Gateway J
  stop_watching client symbol exchange g =
      let watching = watching_of client g in
      if is_text (lookup symbol watching) exchange
      then decrement_watcher symbol exchange
          (record g { client_watching = insert client (erase symbol watching) g.client_watching })
      else g

  module _ (upper : String → String) where
    pub handle_subscribe_symbol : String → SymbolMessage → Gateway J → Gateway J
    handle_subscribe_symbol client data' g = elim (truthy data'.symbol) [
      | none ↦ g
      | some s ↦ elim (truthy data'.exchange) [
        | none ↦ g
        | some e ↦
            let room = symbol_room (upper s) in
            start_watching client (upper s) (upper e)
              (perform (emit_subscribed client room) (perform (join client room) g))
      ]
    ]

    pub handle_unsubscribe_symbol : String → SymbolMessage → Gateway J → Gateway J
    handle_unsubscribe_symbol client data' g = elim (truthy data'.symbol) [
      | none ↦ g
      | some s ↦ elim (truthy data'.exchange) [
        | none ↦ g
        | some e ↦
            stop_watching client (upper s) (upper e)
              (perform (leave client (symbol_room (upper s))) g)
      ]
    ]

  -- `user_id` is the id that the verified token put on the socket.
  pub handle_chart_state : Option String → ChartMessage J → Gateway J → Gateway J
  handle_chart_state user_id data' g = elim (truthy user_id) [
    | none ↦ g
    | some user ↦ record g {
      chart_state_by_user =
          insert user
            (record {
              interval = data'.interval;
              indicators = take max_chart_state_indicators (or_else data'.indicators []);
            })
            g.chart_state_by_user;
    }
  ]

  pub get_chart_state : String → Gateway J → Option (ChartState J)
  get_chart_state user g = lookup user g.chart_state_by_user

  pub get_active_symbols : Gateway J → List (String × String)
  get_active_symbols g = active_pairs g.watcher_counts
