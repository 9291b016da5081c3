-- ===== src/Requests/Generation.antt =====
-- src/signals/signals.controller.ts: the generation of a signal on demand, and the limits of the lists.
-- `encode` is `encodeURIComponent`, `query_text` the text of `URLSearchParams`.
use ai_trader_api.Base.{
  ℕ, ◌≡◌, refl, inl, inr, not, Option, none, some, List, [], ◌∷◌, or_else, if◌then◌else◌, length,
  Bool-cases,
}
use ai_trader_api.Base.Text.{Text, units, is_empty}
use ai_trader_api.Base.Action.{Result, ok, err, Action}
use ai_trader_api.HttpClient.{Json, Request, Fetched, UpstreamError, generate}
use ai_trader_api.HttpClient.Retry.{logged, generate_once}
use ai_trader_api.Watchlist.{is_symbol}
use ai_trader_api.Requests.{RequestError, invalid_symbol, invalid_exchange, is_among, normal}
use ai_trader_api.Requests.Routes.{RouteError, checked, passed_on}

-- `SIGNAL_EXCHANGES`.
abbrev pub signal_exchanges : List Text
signal_exchanges = units "NSE" ∷ units "BSE" ∷ []

-- `limit ? parseInt(limit) : standard`, which is 50, 40 and 20; `parse_int` is `parseInt`.
abbrev pub limit_of_query : {N : Type 0} → (Text → N) → Option Text → N → N
limit_of_query parse_int none standard = standard
limit_of_query parse_int (some limit) standard =
    if is_empty limit then standard else parse_int limit

module _ (upper : Text → Text) where
  -- What is sent on: the symbol and the exchange.
  abbrev pub valid_generation : Text → Text → Result RequestError (Text × Text)
  valid_generation symbol exchange =
      if not (is_symbol (normal upper symbol))
      then err invalid_symbol
      else if not (is_among signal_exchanges (normal upper exchange))
      then err invalid_exchange
      else ok (normal upper symbol, normal upper exchange)

module _ {J W : Type 0} (json : Json J) (fetch : Request J → W → Fetched J × W) (base : Text)
    (upper encode : Text → Text) (query_text : List (Text × Text) → Text) where
  -- `generate`.
  pub post_generate : Text → Option Text → Action (RouteError J) W J
  post_generate symbol exchange =
      checked (valid_generation upper symbol (or_else exchange (units "NSE"))) λ valid w.
        passed_on (
          generate json fetch base (encode valid.0) (query_text ((units "exchange", valid.1) ∷ []))
            w)

module _ {J W : Type 0} (json : Json J) (fetch : Request J → W → Fetched J × W) (base : Text)
    (upper encode : Text → Text) (query_text : List (Text × Text) → Text) where
  -- How many calls were sent.
  abbrev pub sent_by :
      {A : Type 0} → Action (RouteError J) (W × List (Request J × Fetched J)) A → W → ℕ
  sent_by call w = length (call (w, [])).1.1

  passed_on-state : {X : Type 0} (p : Result (UpstreamError J) J × X) → (passed_on p).1 ≡ p.1
  passed_on-state (ok j, x) = refl
  passed_on-state (err e, x) = refl

  -- A generation for a symbol that passes the test, on NSE or BSE, is sent once, and not again after a
  -- failure of the network; any other is not sent.
  pub post_generate_sends :
      (symbol : Text) (exchange : Option Text) (w : W)
      → sent_by (post_generate json (logged fetch) base upper encode query_text symbol exchange) w
        ≡ (if is_symbol (normal upper symbol)
            then (if is_among signal_exchanges (normal upper (or_else exchange (units "NSE")))
                then 1
                else 0)
            else 0)
  unfolding post_generate
  post_generate_sends symbol exchange w = elim (Bool-cases (is_symbol (normal upper symbol))) [
    | inr unnamed ↦ rw unnamed refl
    | inl named ↦
        elim (Bool-cases
          (is_among signal_exchanges (normal upper (or_else exchange (units "NSE"))))) [
            | inr closed ↦ rw (named, closed) refl
            | inl listed ↦
                rw
                  (
                    named,
                    listed,
                    passed_on-state (
                        generate json (logged fetch) base (encode (normal upper symbol))
                          (query_text (
                            (units "exchange", normal upper (or_else exchange (units "NSE"))) ∷ []))
                          (w, [])),
                  )
                  (generate_once json fetch base (encode (normal upper symbol))
                    (query_text
                      ((units "exchange", normal upper (or_else exchange (units "NSE"))) ∷ []))
                    w)
          ]
  ]
