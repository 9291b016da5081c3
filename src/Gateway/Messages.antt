-- ===== src/Gateway/Messages.antt =====
-- signals.gateway.ts: what one message of a client changes.
use ai_trader_api.Base.{
  ◌≡◌, ◌≢◌, String, Bool, true, false, ◌&&◌, some, List, [], ◌∷◌, arith, str_eq, if◌then◌else◌,
  or_else, eq_iff, ◌≤◌, take, length, length-take,
}
use ai_trader_api.Base.Dict.{lookup, lookup-insert}
use ai_trader_api.Gateway.{
  Gateway, Effect, join, leave, emit_subscribed, call_internal, ChartMessage, symbol_room,
  watching_of, stop_watching, handle_unsubscribe_symbol, handle_chart_state, get_chart_state,
}

-- Whether the log leaves a client in a room.
abbrev pub in_room : String → String → List Effect → Bool
in_room client room [] = false
in_room client room (join c r ∷ log) =
    if str_eq c client && str_eq r room then true else in_room client room log
in_room client room (leave c r ∷ log) =
    if str_eq c client && str_eq r room then false else in_room client room log
in_room client room (emit_subscribed c r ∷ log) = in_room client room log
in_room client room (call_internal a s e ∷ log) = in_room client room log

module _ {J : Type 0} (upper : String → String) where
  -- An unsubscription that names another exchange than the one the client watches (both fields
  -- present and not empty) changes no map, but takes the client out of the symbol's room: it stays
  -- counted as a watcher of the symbol and is sent no more of its ticks.
  pub stale_unsubscribe_leaves_room :
      (client symbol exchange watched : String) (g : Gateway J)
      → symbol ≢ ""
      → exchange ≢ ""
      → lookup (upper symbol) (watching_of client g) ≡ some watched
      → watched ≢ upper exchange
      → let g' =
          handle_unsubscribe_symbol upper client
            (record { symbol = some symbol; exchange = some exchange })
            g in
        (g'.client_watching ≡ g.client_watching)
        × (g'.watcher_counts ≡ g.watcher_counts)
        × (in_room client (symbol_room (upper symbol)) g'.effects ≡ false)
  unfolding handle_unsubscribe_symbol stop_watching
  stale_unsubscribe_leaves_room client symbol exchange watched g hs he e other = ground (
    arith,
    eq_iff symbol "",
    eq_iff exchange "",
    eq_iff watched (upper exchange),
    eq_iff client client,
    eq_iff (symbol_room (upper symbol)) (symbol_room (upper symbol)),
  )

module _ {J : Type 0} where
  -- A `chart_state` message of a user with a non-empty id stores at most 20 indicators, the first
  -- ones sent (none if it sent no array), under that user, and leaves every other user's state as it
  -- was.
  pub chart_state_is_own :
      (user other : String) (m : ChartMessage J) (g : Gateway J)
      → user ≢ ""
      → let g' = handle_chart_state (some user) m g in
        (get_chart_state other g' ≡ (
          if str_eq user other
          then some
              (record { interval = m.interval; indicators = take 20 (or_else m.indicators []) })
          else get_chart_state other g))
        × (length (take 20 (or_else m.indicators [])) ≤ 20)
  unfolding handle_chart_state get_chart_state
  chart_state_is_own user other m g h = (
    ground (
      arith,
      eq_iff user "",
      lookup-insert user other
          (record { interval = m.interval; indicators = take 20 (or_else m.indicators []) })
          g.chart_state_by_user,
    ),
    omega (arith, length-take 20 (or_else m.indicators [])),
  )
