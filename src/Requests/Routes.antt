-- ===== src/Requests/Routes.antt =====
-- src/market/market.controller.ts and market.service.ts: the routes, which check what they are sent and
-- then make one call, the last traded price, and `fetchLtp` of src/portfolio/portfolio-accounts.service.ts.
-- `encode` is `encodeURIComponent`, `query_text` the text of `URLSearchParams`, `show` that of `String(n)`.
use ai_trader_api.Base.{
  ℕ, ◌≡◌, refl, ◌⊎◌, inl, inr, true, Option, none, some, List, [], ◌∷◌, ◌++◌, or_else,
  if◌then◌else◌, arith,
}
use ai_trader_api.Base.Text.{Text, units, is_empty}
use ai_trader_api.Base.Action.{Result, ok, err, Action, Result-cases}
use ai_trader_api.Base.Double.{Double}
use ai_trader_api.HttpClient.{Json, Request, Fetched, UpstreamError, not_json, request}
use ai_trader_api.Requests.{
  RequestError, Parsed, valid_symbol, valid_exchange, valid_interval, valid_days, valid_ticks_range,
  valid_query, market_options, search, quote, historical, ticks,
}

-- What a route ends with: its own refusal, or the error of the call.
pub data RouteError (J : Type 0) : Type 0 where
  refused : RequestError → RouteError J
  upstream : UpstreamError J → RouteError J

-- Why there is no price.
pub data PriceError (J : Type 0) : Type 0 where
  -- An `HttpException` of the call, passed on.
  call_failed : UpstreamError J → PriceError J
  -- `ServiceUnavailableException`.
  no_live_price : PriceError J

module _ {J W : Type 0} where
  abbrev pub passed_on : Result (UpstreamError J) J × W → Result (RouteError J) J × W
  passed_on (ok j, w) = (ok j, w)
  passed_on (err e, w) = (err (upstream e), w)

  -- What passes a check is sent on; what does not, ends the request before any call.
  abbrev pub checked :
      {A : Type 0}
      → Result RequestError A
      → (A → Action (RouteError J) W J)
      → Action (RouteError J) W J
  checked (ok a) call w = call a w
  checked (err e) call w = (err (refused e), w)

module _ {J W : Type 0} (json : Json J) (fetch : Request J → W → Fetched J × W) (base : Text)
    (upper encode : Text → Text) (query_text : List (Text × Text) → Text) (show : ℕ → Text)
    (parse_int : Text → Parsed) where
  -- The routes, with the defaults of their parameters.
  pub get_search : Option Text → Action (RouteError J) W J
  get_search q =
      checked (valid_query (or_else q []))
        λ query w. passed_on (search json fetch base (query_text ((units "q", query) ∷ [])) w)

  pub get_quote : Text → Option Text → Action (RouteError J) W J
  get_quote symbol exchange = checked (valid_exchange upper (or_else exchange (units "NSE"))) λ e.
      checked (valid_symbol upper symbol) λ s w.
        passed_on (quote json fetch base (encode s) (query_text ((units "exchange", e) ∷ [])) w)

  pub get_ticks : ℕ → Text → Text → Text → Action (RouteError J) W J
  get_ticks now symbol since until =
      checked (valid_ticks_range now (parse_int since) (parse_int until)) λ range.
        checked (valid_symbol upper symbol) λ s w. passed_on (
          ticks json fetch base (encode s)
            (query_text ((units "since", show range.0) ∷ (units "until", show range.1) ∷ [])) w)

  -- `if (exchange) params.set('exchange', validExchange(exchange))`
  abbrev pub exchange_params : Option Text → Result RequestError (List (Text × Text))
  exchange_params none = ok []
  exchange_params (some e) =
      if is_empty e
      then ok []
      else elim (valid_exchange upper e) [ ok x ↦ ok ((units "exchange", x) ∷ []) | err r ↦ err r ]

  pub get_historical : Text → Option Text → Option Text → Option Text → Action (RouteError J) W J
  get_historical symbol interval days exchange = checked (exchange_params exchange) λ given.
      checked (valid_interval (or_else interval (units "15m"))) λ i.
        checked (valid_days (parse_int (or_else days (units "30")))) λ d.
          checked (valid_symbol upper symbol) λ s w. passed_on (
            historical json fetch base (encode s)
              (query_text (given ++ (units "interval", i) ∷ (units "days", show d) ∷ [])) w)

  -- A quote is refused with no call made, or it is the answer of one call, for a symbol and an exchange
  -- that pass the checks.
  pub get_quote_calls :
      (symbol : Text) (exchange : Option Text) (w : W)
      → ((e : RequestError) × (get_quote symbol exchange w ≡ (err (refused e), w)))
        ⊎ ((s : Text) × (x : Text) × (valid_symbol upper symbol ≡ ok s)
            × (valid_exchange upper (or_else exchange (units "NSE")) ≡ ok x)
            × (get_quote symbol exchange w
                ≡ passed_on
                    (quote json fetch base (encode s) (query_text ((units "exchange", x) ∷ [])) w)))
  unfolding get_quote
  get_quote_calls symbol exchange w =
      elim (Result-cases (valid_exchange upper (or_else exchange (units "NSE")))) [
        | inr (e, p) ↦ inl (e, rw (p, get_quote) refl)
        | inl (x, p) ↦ elim (Result-cases (valid_symbol upper symbol)) [
          | inr (e, q) ↦ inl (e, rw (p, q, get_quote) refl)
          | inl (s, q) ↦ inr (s, x, q, p, rw (p, q, get_quote) refl)
        ]
      ]

-- `ltp_of` reads the field of a quote; `none` where it is missing.
module _ {J W N : Type 0} (json : Json J) (fetch : Request J → W → Fetched J × W) (base : Text)
    (num : Double N) (ltp_of : J → Option N) where
  -- `if (!ltp) throw`
  abbrev pub price_of : Option N → Result (PriceError J) N
  price_of none = err no_live_price
  price_of (some p) = if num.truthy p then ok p else err no_live_price

  -- `res.json()` throws no `HttpException`.
  abbrev pub rethrown : UpstreamError J → PriceError J
  rethrown not_json = no_live_price
  rethrown e = call_failed e

  abbrev pub price_in : Result (UpstreamError J) J × W → Result (PriceError J) N × W
  price_in (ok j, w) = (price_of (ltp_of j), w)
  price_in (err e, w) = (err (rethrown e), w)

  -- `ltp` under the `catch` of `fetchLtp`; `symbol` and `params` are encoded.
  pub fetch_ltp : Text → Text → Action (PriceError J) W N
  fetch_ltp symbol params w = price_in (
      request json fetch base (units "/market/quote/" ++ symbol)
        (market_options json fetch base params (some 5000)) w)

  price_of_lem : (o : Option N) (p : N) → price_of o ≡ ok p → num.truthy p ≡ true
  price_of_lem none p h = cc
  price_of_lem (some q) p h = ground arith

  price_in_lem :
      (r : Result (UpstreamError J) J × W) (p : N) → (price_in r).0 ≡ ok p → num.truthy p ≡ true
  price_in_lem (ok j, w) p h = price_of_lem (ltp_of j) p h
  price_in_lem (err e, w) p h = cc

  -- A price that is answered is not zero, nor what stands for no number.
  pub fetch_ltp_lem :
      (symbol params : Text) (w : W) (p : N)
      → (fetch_ltp symbol params w).0 ≡ ok p
      → num.truthy p ≡ true
  unfolding fetch_ltp
  fetch_ltp_lem symbol params w p h =
      price_in_lem
        (request json fetch base (units "/market/quote/" ++ symbol)
          (market_options json fetch base params (some 5000)) w)
        p h
