-- ===== src/Gateway/History.antt =====
-- Whole histories of socket messages against signals.gateway.ts: the handlers composed as Socket.IO
-- calls them, one message at a time.
use ai_trader_api.Base.{
  ◌≡◌, ◌∙◌, refl, ◌≢◌, String, inl, inr, Option, List, [], ◌∷◌, arith, ltb, Option-cases,
}
use ai_trader_api.Gateway.{
  Gateway, Effect, join, leave, emit_subscribed, perform, ChartMessage, SymbolMessage, truthy,
  symbol_room, handle_disconnect, handle_subscribe_symbol, handle_unsubscribe_symbol,
  handle_chart_state,
}
use ai_trader_api.Gateway.Watchers.{watchers, count_of, IsCounted, handle_disconnect-IsCounted}
use ai_trader_api.Gateway.Subscriptions.{
  truthy-ne, start_watching-IsCounted, stop_watching-IsCounted,
}
use ai_trader_api.Gateway.Upstream.{
  is_live, Mirrors, handle_disconnect-Mirrors, start_watching-Mirrors, stop_watching-Mirrors,
}

pub data Message (J : Type 0) : Type 0 where
  subscribe_symbol unsubscribe_symbol : (client : String) → SymbolMessage → Message J
  disconnect : (client : String) → Message J
  chart_state : (user : Option String) → ChartMessage J → Message J

module _ {J : Type 0} (upper : String → String) where
  -- The handler that a message is given to.
  unfoldable pub receive : Message J → Gateway J → Gateway J
  receive (subscribe_symbol client m) = handle_subscribe_symbol upper client m
  receive (unsubscribe_symbol client m) = handle_unsubscribe_symbol upper client m
  receive (disconnect client) = handle_disconnect client
  receive (chart_state user m) = handle_chart_state user m

  unfoldable pub run : List (Message J) → Gateway J → Gateway J
  run [] g = g
  run (m ∷ ms) g = run ms (receive m g)

-- Both invariants of the gateway.
pub record IsSound {J : Type 0} (g : Gateway J) : Type 0 where
  pub is_counted : IsCounted g
  pub mirrors : Mirrors g

module _ {J : Type 0} where
  -- The state that the constructor leaves.
  abbrev pub new_gateway : Gateway J
  new_gateway = record {
    watcher_counts = [];
    client_watching = [];
    chart_state_by_user = [];
    effects = [];
  }

  pub new_gateway-IsSound : IsSound new_gateway
  new_gateway-IsSound = record {
    is_counted = record {
      unique = tt;
      counted = λ key. refl;
      positive = λ key e. cc;
      named = refl;
    };
    mirrors = record { unique = tt; positive = λ key e. cc; live = λ key. refl };
  }

  -- An effect that is no internal call leaves both invariants alone.
  quiet-IsSound :
      (effect : Effect) (g : Gateway J)
      → ((key : String) (log : List Effect) → is_live key (effect ∷ log) ≡ is_live key log)
      → IsSound g
      → IsSound (perform effect g)
  quiet-IsSound effect g quiet s =
      let a = s.is_counted in
      let m = s.mirrors in
      record {
        is_counted = record {
          unique = a.unique;
          counted = a.counted;
          positive = a.positive;
          named = a.named;
        };
        mirrors = record {
          unique = m.unique;
          positive = m.positive;
          live = λ key. quiet key g.effects ∙ m.live key;
        };
      }

  handle_chart_state-IsSound :
      (user : Option String) (m : ChartMessage J) (g : Gateway J)
      → IsSound g
      → IsSound (handle_chart_state user m g)
  unfolding handle_chart_state
  handle_chart_state-IsSound user m g s =
      let a = s.is_counted in
      let b = s.mirrors in
      elim (Option-cases (truthy user)) [
        | inl e ↦ rw (e, handle_chart_state) s
        | inr (u, e) ↦
            rw (e, handle_chart_state)
              (record {
                is_counted = record {
                  unique = a.unique;
                  counted = a.counted;
                  positive = a.positive;
                  named = a.named;
                };
                mirrors = record { unique = b.unique; positive = b.positive; live = b.live };
              })
      ]

  module _ (upper : String → String) (nonempty : (s : String) → s ≢ "" → upper s ≢ "") where
    handle_subscribe_symbol-IsSound :
        (client : String) (m : SymbolMessage) (g : Gateway J)
        → IsSound g
        → IsSound (handle_subscribe_symbol upper client m g)
    unfolding handle_subscribe_symbol
    handle_subscribe_symbol-IsSound client m g s = elim (Option-cases (truthy m.symbol)) [
      | inl e ↦ rw (e, handle_subscribe_symbol) s
      | inr (symbol, e) ↦ elim (Option-cases (truthy m.exchange)) [
        | inl e' ↦ rw (e, e', handle_subscribe_symbol) s
        | inr (exchange, e') ↦
            rw (e, e', handle_subscribe_symbol)
              (let room = symbol_room (upper symbol) in
                let joined = quiet-IsSound (join client room) g (λ key log. refl) s in
                let told = quiet-IsSound (emit_subscribed client room) _ (λ key log. refl) joined in
                record {
                  is_counted =
                      start_watching-IsCounted client (upper symbol) (upper exchange) _
                        told.is_counted (nonempty exchange (truthy-ne m.exchange exchange e'));
                  mirrors =
                      start_watching-Mirrors client (upper symbol) (upper exchange) _ told.mirrors;
                })
      ]
    ]

    handle_unsubscribe_symbol-IsSound :
        (client : String) (m : SymbolMessage) (g : Gateway J)
        → IsSound g
        → IsSound (handle_unsubscribe_symbol upper client m g)
    unfolding handle_unsubscribe_symbol
    handle_unsubscribe_symbol-IsSound client m g s = elim (Option-cases (truthy m.symbol)) [
      | inl e ↦ rw (e, handle_unsubscribe_symbol) s
      | inr (symbol, e) ↦ elim (Option-cases (truthy m.exchange)) [
        | inl e' ↦ rw (e, e', handle_unsubscribe_symbol) s
        | inr (exchange, e') ↦
            rw (e, e', handle_unsubscribe_symbol)
              (let left =
                  quiet-IsSound (leave client (symbol_room (upper symbol))) g (λ key log. refl) s in
                record {
                  is_counted =
                      stop_watching-IsCounted client (upper symbol) (upper exchange) _
                        left.is_counted;
                  mirrors =
                      stop_watching-Mirrors client (upper symbol) (upper exchange) _ left.mirrors;
                })
      ]
    ]

    receive-IsSound : (m : Message J) (g : Gateway J) → IsSound g → IsSound (receive upper m g)
    unfolding receive
    receive-IsSound (subscribe_symbol client m) g s = handle_subscribe_symbol-IsSound client m g s
    receive-IsSound (unsubscribe_symbol client m) g s =
        handle_unsubscribe_symbol-IsSound client m g s
    receive-IsSound (disconnect client) g s = record {
      is_counted = handle_disconnect-IsCounted client g s.is_counted;
      mirrors = handle_disconnect-Mirrors client g s.mirrors;
    }
    receive-IsSound (chart_state user m) g s = handle_chart_state-IsSound user m g s

    run-IsSound : (ms : List (Message J)) (g : Gateway J) → IsSound g → IsSound (run upper ms g)
    unfolding run
    run-IsSound [] g s = s
    run-IsSound (m ∷ ms) g s = run-IsSound ms (receive upper m g) (receive-IsSound m g s)

    -- If upper-casing makes no text empty, then after any messages from the start, for every key:
    -- the reference count is the number of pairs that the clients watch under the key, and the last
    -- internal call about the key was a subscription exactly if that number is not zero.
    pub run_counts_watchers :
        (ms : List (Message J)) (key : String)
        → let g = run upper ms new_gateway in
          (count_of key g.watcher_counts ≡ watchers key g.client_watching)
          × (is_live key g.effects ≡ ltb 0 (watchers key g.client_watching))
    run_counts_watchers ms key =
        let s = run-IsSound ms new_gateway new_gateway-IsSound in
        let g = run upper ms new_gateway in
        (
          s.is_counted.counted key,
          ground (arith, s.is_counted.counted key, s.mirrors.live key, s.mirrors.positive key),
        )
