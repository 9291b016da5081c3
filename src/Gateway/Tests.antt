-- ===== src/Gateway/Tests.antt =====
-- Histories of the gateway, and the theorems at concrete inputs.
use ai_trader_api.Base.{
  true, none, Option, ◌++◌, ◌==◌, map, any, ℕ, ◌≡◌, refl, String, false, some, List, [], ◌∷◌, arith,
  ltb, if◌then◌else◌, eq_iff,
}
use ai_trader_api.Gateway.{
  Gateway, SymbolMessage, ChartMessage, symbol_room, handle_subscribe_symbol,
  handle_unsubscribe_symbol, handle_chart_state, get_chart_state, start_watching, stop_watching,
  decrement_watcher, increment_watcher, handle_disconnect, decrement_all,
}
use ai_trader_api.Gateway.Pairs.{pair_key}
use ai_trader_api.Base.Text.{Text, units}
use ai_trader_api.Gateway.Connection.{
  Emission, emit_order_update, emit_position_update, handle_connection, joined_as, disconnected,
  threw, hears, broadcast_signal, Cookies, parse_cookies, cookie, access_token,
  private_updates_need_token, cookies_from,
}
use ai_trader_api.Gateway.Watchers.{watchers, count_of}
use ai_trader_api.Gateway.Upstream.{is_live}
use ai_trader_api.Gateway.History.{
  Message, subscribe_symbol, disconnect, run, receive, new_gateway, run_counts_watchers,
}
use ai_trader_api.Gateway.Messages.{in_room, stale_unsubscribe_leaves_room}

gateway : Unit {0}
unfolding run receive handle_subscribe_symbol handle_unsubscribe_symbol start_watching stop_watching
    decrement_watcher increment_watcher handle_disconnect decrement_all handle_chart_state
    get_chart_state pair_key
gateway = tt

abbrev pair : String → String → SymbolMessage
pair s e = record { symbol = some s; exchange = some e }

abbrev history : List (Message ℕ)
history =
    subscribe_symbol "a" (pair "TCS" "NSE")
    ∷ subscribe_symbol "b" (pair "TCS" "NSE")
    ∷ subscribe_symbol "b" (pair "TCS" "BSE")
    ∷ disconnect "b"
    ∷ []

history_counts : (run (λ s. s) history new_gateway).watcher_counts ≡ ("TCS:NSE", 1) ∷ []
unfolding gateway
history_counts = refl

run_counts_watchers_example :
    let g = run (λ s. s) history new_gateway in
    (count_of "TCS:NSE" g.watcher_counts ≡ watchers "TCS:NSE" g.client_watching)
    × (is_live "TCS:NSE" g.effects ≡ ltb 0 (watchers "TCS:NSE" g.client_watching))
run_counts_watchers_example = run_counts_watchers (λ s. s) (λ s h. h) history "TCS:NSE"

abbrev watched : Gateway ℕ
watched = record {
  watcher_counts = ("TCS:NSE", 1) ∷ [];
  client_watching = ("a", ("TCS", "NSE") ∷ []) ∷ [];
  chart_state_by_user = [];
  effects = [];
}

stale_unsubscribe_leaves_room_example :
    let g' =
      handle_unsubscribe_symbol
        (λ s. s)
        "a"
        (record { symbol = some "TCS"; exchange = some "BSE" })
        watched in
    (g'.client_watching ≡ watched.client_watching)
    × (g'.watcher_counts ≡ watched.watcher_counts)
    × (in_room "a" (symbol_room "TCS") g'.effects ≡ false)
stale_unsubscribe_leaves_room_example =
    stale_unsubscribe_leaves_room (λ s. s) "a" "TCS" "BSE" "NSE" watched
      (ground (arith, eq_iff "TCS" "")) (ground (arith, eq_iff "BSE" "")) refl
      (ground (arith, eq_iff "NSE" "BSE"))

abbrev drawn : ChartMessage ℕ
drawn = record { interval = some "5m"; indicators = some (7 ∷ 8 ∷ []) }

abbrev plain : Text → Option Text
plain s = some s

-- `decodeURIComponent` of a text that starts with a percent sign, as a lone one throws.
abbrev strict : Text → Option Text
strict [] = some []
strict (c ∷ s) = if c == 37 then none else some (c ∷ s)

abbrev verify : Text → Option (Option String)
verify token = some (some "u")

abbrev header : Option Text
header = some (units "theme=dark; access_token=abc")

abbrev heard : List (Emission String)
heard = emit_order_update true "u" "order" ++ emit_position_update true "u" "positions"

connected_run : handle_connection plain verify header ≡ joined_as "u"
unfolding handle_connection parse_cookies cookies_from
connected_run = refl

no_cookie_run : handle_connection plain verify none ≡ disconnected
unfolding handle_connection parse_cookies
no_cookie_run = refl

-- A cookie that cannot be decoded: the socket is neither joined to a room nor disconnected.
malformed_cookie_run : handle_connection strict verify (some (units "theme=%")) ≡ threw
unfolding handle_connection parse_cookies cookies_from
malformed_cookie_run = refl

-- A socket that watches the symbol of a signal gets the signal twice.
signal_twice_run :
    map
      (λ (e : Emission String). hears (joined_as "u") ("TCS" ∷ []) e.audience)
      (broadcast_signal true (λ s. some "TCS") "signal")
    ≡ true ∷ true ∷ []
unfolding broadcast_signal
signal_twice_run = refl

heard_run :
    any (λ (e : Emission String). hears (handle_connection plain verify header) [] e.audience) heard
    ≡ true
unfolding emit_order_update emit_position_update handle_connection parse_cookies cookies_from
heard_run = refl

private_updates_need_token_example :
    (cookies : Cookies) × (token : Text) × (parse_cookies plain header ≡ some cookies)
    × (cookie access_token cookies ≡ some token)
    × (verify token ≡ some (some "u"))
private_updates_need_token_example =
    private_updates_need_token plain verify header [] "u" "order" "positions" heard_run
