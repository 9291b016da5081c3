-- ===== src/Requests.antt =====
-- The checks in front of the signals service: src/signals/chat-request.ts for a chat turn, and
-- src/market/market.controller.ts with market.service.ts for the market data. `upper` stands for
-- `toUpperCase`; `parse_int` for `parseInt(s, 10)`. The texts of the exceptions are left out.
pub mod Bounds
pub mod Generation
pub mod Limits
pub mod Routes
mod Tests
use ai_trader_api.Base.{
  ℕ, ◌+◌, ◌-◌, ◌*◌, Bool, true, false, not, ◌||◌, Option, none, some, List, [], ◌∷◌, ◌++◌, ltb, leb,
  any, if◌then◌else◌, or_else, length,
}
use ai_trader_api.Base.Text.{Text, units, trim, is_empty, text_eq}
use ai_trader_api.Base.Action.{Result, ok, err, Action}
use ai_trader_api.HttpClient.{
  Json, Request, Fetched, UpstreamRequestOptions, UpstreamError, request,
}
use ai_trader_api.Watchlist.{is_symbol}

pub data RequestError : Type 0 where
  invalid_symbol invalid_exchange invalid_interval no_message : RequestError
  invalid_days invalid_time invalid_query : RequestError

-- `new Set(...).has`
abbrev pub is_among : List Text → Text → Bool
is_among names s = any (text_eq s) names

-- `EXCHANGES`, which the two files list in different orders, and `INTERVALS`.
abbrev pub exchanges : List Text
exchanges =
    units "NSE" ∷ units "BSE" ∷ units "NASDAQ" ∷ units "NYSE" ∷ units "MCX" ∷ units "FOREX" ∷ []

abbrev pub intervals : List Text
intervals = units "1m" ∷ units "5m" ∷ units "15m" ∷ units "30m" ∷ units "1h" ∷ units "1d" ∷ []

abbrev pub max_days : ℕ
max_days = 3650

abbrev pub max_ticks_window_seconds : ℕ
max_ticks_window_seconds = 4 * 60 * 60

abbrev pub max_ticks_lookback_seconds : ℕ
max_ticks_lookback_seconds = 7 * 24 * 60 * 60

-- What `parseInt` gives: NaN, a number below zero, or one that is not.
pub data Parsed : Type 0 where
  not_a_number negative : Parsed
  natural : ℕ → Parsed

-- `ChatDto`, and `NormalisedChatRequest`.
pub record ChatDto (J : Type 0) : Type 0 where
  pub symbol : Option Text
  pub exchange : Option Text
  pub message : Option Text
  pub history : Option (List J)

pub record NormalisedChatRequest (J : Type 0) : Type 0 where
  pub symbol : Text
  pub exchange : Text
  pub message : Text
  pub history : List J

module _ (upper : Text → Text) where
  abbrev pub normal : Text → Text
  normal s = upper (trim s)

  abbrev pub check_message :
      {J : Type 0}
      → ChatDto J
      → Text
      → Text
      → Option Text
      → Result RequestError (NormalisedChatRequest J)
  check_message body symbol exchange none = err no_message
  check_message body symbol exchange (some message) =
      if is_empty (trim message)
      then err no_message
      else ok (record {
        symbol = symbol;
        exchange = exchange;
        message = message;
        history = or_else body.history [];
      })

  -- `normaliseChatRequest`.
  pub normalise_chat_request :
      {J : Type 0} → ChatDto J → Result RequestError (NormalisedChatRequest J)
  normalise_chat_request body =
      let symbol = normal (or_else body.symbol []) in
      let exchange = normal (or_else body.exchange (units "NSE")) in
      if not (is_symbol symbol)
      then err invalid_symbol
      else if not (is_among exchanges exchange)
      then err invalid_exchange
      else check_message body symbol exchange body.message

  -- `validSymbol`, `validExchange`.
  pub valid_symbol : Text → Result RequestError Text
  valid_symbol s = if is_symbol (normal s) then ok (normal s) else err invalid_symbol

  pub valid_exchange : Text → Result RequestError Text
  valid_exchange e = if is_among exchanges (normal e) then ok (normal e) else err invalid_exchange

-- `validInterval`.
pub valid_interval : Text → Result RequestError Text
valid_interval i = if is_among intervals i then ok i else err invalid_interval

-- `validDays`, of the number that was read.
pub valid_days : Parsed → Result RequestError ℕ
valid_days not_a_number = err invalid_days
valid_days negative = err invalid_days
valid_days (natural n) = if ltb n 1 || ltb max_days n then err invalid_days else ok n

-- `validTicksRange`, of the two numbers that were read and the time in seconds. A number below zero
-- lies before the window.
pub valid_ticks_range : ℕ → Parsed → Parsed → Result RequestError (ℕ × ℕ)
valid_ticks_range now not_a_number until = err invalid_time
valid_ticks_range now negative until = err invalid_time
valid_ticks_range now (natural since) not_a_number = err invalid_time
valid_ticks_range now (natural since) negative = err invalid_time
valid_ticks_range now (natural since) (natural until) =
    if ltb since (now - max_ticks_lookback_seconds) || ltb (now + 60) until
    then err invalid_time
    else if leb until since || ltb max_ticks_window_seconds (until - since)
    then err invalid_time
    else ok (since, until)

-- `search`: the query that is sent.
pub valid_query : Text → Result RequestError Text
valid_query q =
    let query = trim q in
    if ltb (length query) 1 || ltb 40 (length query) then err invalid_query else ok query

-- `MarketService`: `params` is the text of the query, `symbol` that of `encodeURIComponent`.
module _ {J W : Type 0} (json : Json J) (fetch : Request J → W → Fetched J × W) (base : Text) where
  abbrev pub market_options : Text → Option ℕ → UpstreamRequestOptions J
  market_options params timeout_ms = record {
    method = none;
    body = none;
    params = some params;
    timeout_ms = timeout_ms;
    retry_on_network_error = none;
  }

  pub search : Text → Action (UpstreamError J) W J
  search params = request json fetch base (units "/market/search") (market_options params none)

  pub quote : Text → Text → Action (UpstreamError J) W J
  quote symbol params =
      request json fetch base (units "/market/quote/" ++ symbol) (market_options params none)

  pub historical : Text → Text → Action (UpstreamError J) W J
  historical symbol params =
      request json fetch base (units "/market/historical/" ++ symbol)
        (market_options params (some 25000))

  pub ticks : Text → Text → Action (UpstreamError J) W J
  ticks symbol params =
      request json fetch base (units "/market/ticks/" ++ symbol)
        (market_options params (some 20000))
