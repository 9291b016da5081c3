-- ===== src/Gateway/Upstream.antt =====
-- signals.gateway.ts: the reference counts and what the signals service is told of live ticks.
use ai_trader_api.Base.{
  ◌+◌, ◌-◌, ◌≡◌, ◌≢◌, String, Bool, true, false, inl, inr, Option, none, some, List, [], ◌∷◌, arith,
  str_eq, if◌then◌else◌, is_some, eq_iff, Bool-cases, Option-cases,
}
use ai_trader_api.Base.Dict.{Dict, lookup, erase, HasUniqueKeys, lookup-insert, lookup-erase}
use ai_trader_api.Gateway.{
  Gateway, Action, subscribe, unsubscribe, Effect, join, leave, emit_subscribed, call_internal,
  truthy, is_text, decrement_watcher, decrement_all, handle_disconnect, watching_of, leave_previous,
  increment_watcher, start_watching, stop_watching,
}
use ai_trader_api.Gateway.Pairs.{pair_key}
use ai_trader_api.Gateway.Watchers.{count_of, decrement-HasUniqueKeys, decrement-positive}
use ai_trader_api.Gateway.Increments.{increment-HasUniqueKeys, increment-positive}

abbrev pub is_subscribe : Action → Bool
is_subscribe subscribe = true
is_subscribe unsubscribe = false

-- Whether the latest internal call about a key asked for its ticks. The log is newest first.
abbrev pub is_live : String → List Effect → Bool
is_live key [] = false
is_live key (call_internal a s e ∷ log) =
    if str_eq (pair_key s e) key then is_subscribe a else is_live key log
is_live key (join c r ∷ log) = is_live key log
is_live key (leave c r ∷ log) = is_live key log
is_live key (emit_subscribed c r ∷ log) = is_live key log

module _ {J : Type 0} where
  -- Upstream streams exactly the pairs that have an entry in `watcherCounts`.
  pub record Mirrors (g : Gateway J) : Type 0 where
    pub unique : HasUniqueKeys g.watcher_counts
    pub positive : (key : String) → lookup key g.watcher_counts ≢ some 0
    pub live : (key : String) → is_live key g.effects ≡ is_some (lookup key g.watcher_counts)

  decrement-live :
      (symbol exchange key : String) (g : Gateway J)
      → Mirrors g
      → is_live key (decrement_watcher symbol exchange g).effects
        ≡ is_some (lookup key (decrement_watcher symbol exchange g).watcher_counts)
  unfolding decrement_watcher
  decrement-live symbol exchange key g m =
      let k = pair_key symbol exchange in
      ground (
        arith,
        eq_iff k key,
        m.live key,
        lookup-erase k key g.watcher_counts m.unique,
        lookup-insert k key (count_of k g.watcher_counts - 1) g.watcher_counts,
      )

  pub decrement-Mirrors :
      (symbol exchange : String) (g : Gateway J)
      → Mirrors g
      → Mirrors (decrement_watcher symbol exchange g)
  decrement-Mirrors symbol exchange g m = record {
    unique = decrement-HasUniqueKeys symbol exchange g m.unique;
    positive = λ key. decrement-positive symbol exchange key g m.unique (m.positive key);
    live = λ key. decrement-live symbol exchange key g m;
  }

  increment-live :
      (symbol exchange key : String) (g : Gateway J)
      → Mirrors g
      → is_live key (increment_watcher symbol exchange g).effects
        ≡ is_some (lookup key (increment_watcher symbol exchange g).watcher_counts)
  unfolding increment_watcher
  increment-live symbol exchange key g m =
      let k = pair_key symbol exchange in
      ground (
        arith,
        eq_iff k key,
        m.live key,
        m.positive k,
        lookup-insert k key (count_of k g.watcher_counts + 1) g.watcher_counts,
      )

  pub increment-Mirrors :
      (symbol exchange : String) (g : Gateway J)
      → Mirrors g
      → Mirrors (increment_watcher symbol exchange g)
  increment-Mirrors symbol exchange g m = record {
    unique = increment-HasUniqueKeys symbol exchange g m.unique;
    positive = λ key. increment-positive symbol exchange key g (m.positive key);
    live = λ key. increment-live symbol exchange key g m;
  }

  decrement_all-Mirrors :
      (rest : Dict String) (g : Gateway J) → Mirrors g → Mirrors (decrement_all rest g)
  unfolding decrement_all
  decrement_all-Mirrors [] g m = m
  decrement_all-Mirrors ((s, e) ∷ rest) g m =
      decrement_all-Mirrors rest (decrement_watcher s e g) (decrement-Mirrors s e g m)

  leave-Mirrors :
      (symbol : String) (o : Option String) (g : Gateway J)
      → Mirrors g
      → Mirrors (leave_previous symbol o g)
  leave-Mirrors symbol none g m = m
  leave-Mirrors symbol (some e) g m = decrement-Mirrors symbol e g m

  -- Storing clients' maps touches neither the counts nor the log.
  with_clients-Mirrors :
      (g : Gateway J) (clients : Dict (Dict String))
      → Mirrors g
      → Mirrors (record g { client_watching = clients })
  with_clients-Mirrors g clients m = record {
    unique = m.unique;
    positive = m.positive;
    live = m.live;
  }

  pub handle_disconnect-Mirrors :
      (client : String) (g : Gateway J) → Mirrors g → Mirrors (handle_disconnect client g)
  unfolding handle_disconnect
  handle_disconnect-Mirrors client g m =
      let closed = with_clients-Mirrors g (erase client g.client_watching) m in
      elim (Option-cases (lookup client g.client_watching)) [
        | inl e ↦ rw (e, handle_disconnect) closed
        | inr (w, e) ↦ rw (e, handle_disconnect) (decrement_all-Mirrors w _ closed)
      ]

  pub start_watching-Mirrors :
      (client symbol exchange : String) (g : Gateway J)
      → Mirrors g
      → Mirrors (start_watching client symbol exchange g)
  unfolding start_watching
  start_watching-Mirrors client symbol exchange g m =
      let previous = lookup symbol (watching_of client g) in
      elim (Bool-cases (is_text previous exchange)) [
        | inl again ↦ rw again (with_clients-Mirrors g _ m)
        | inr other ↦ rw other (
            increment-Mirrors symbol exchange _
              (with_clients-Mirrors _ _ (leave-Mirrors symbol (truthy previous) g m)))
      ]

  pub stop_watching-Mirrors :
      (client symbol exchange : String) (g : Gateway J)
      → Mirrors g
      → Mirrors (stop_watching client symbol exchange g)
  unfolding stop_watching
  stop_watching-Mirrors client symbol exchange g m =
      let previous = lookup symbol (watching_of client g) in
      elim (Bool-cases (is_text previous exchange)) [
        | inl mine ↦ rw mine (decrement-Mirrors symbol exchange _ (with_clients-Mirrors g _ m))
        | inr other ↦ rw other m
      ]
