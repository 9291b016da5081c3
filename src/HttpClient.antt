-- ===== src/HttpClient.antt =====
-- src/common/http/upstream-http.client.ts and src/signals/signals-upstream.client.ts: the calls of the
-- signals service. `fetch` is an argument, a function of the request on the state of the network; a
-- rejected promise is `network_error`. JSON is the type `J`, read through `Json`. The texts of the
-- exceptions are left out, what they are built from is kept.
pub mod Retry
mod Tests
use ai_trader_api.Base.{
  ℕ, zero, suc, String, Bool, true, false, not, ◌&&◌, ◌||◌, Option, none, some, List, [], ◌∷◌, ◌++◌,
  leb, ◌==◌, if◌then◌else◌, or_else, reverse,
}
use ai_trader_api.Base.Text.{Text, units, is_empty}
use ai_trader_api.Base.Action.{Result, ok, err, Action, throw, from_result}

pub record Json (J : Type 0) : Type 0 where
  -- `Boolean(x)`.
  pub truthy : J → Bool
  -- `x[name]`; `none` is undefined.
  pub member : String → J → Option J

pub data Method : Type 0 where
  get post : Method

abbrev pub is_get : Method → Bool
is_get get = true
is_get post = false

-- `DEFAULT_UPSTREAM_TIMEOUT_MS`.
abbrev pub default_upstream_timeout_ms : ℕ
default_upstream_timeout_ms = 10000

module _ (J : Type 0) where
  -- `UpstreamRequestOptions`; `params` is the text of the query.
  pub record UpstreamRequestOptions : Type 0 where
    pub method : Option Method
    pub body : Option J
    pub params : Option Text
    pub timeout_ms : Option ℕ
    pub retry_on_network_error : Option Bool

  -- The arguments of `fetch`: a body goes with the header of JSON, and a call without a time limit is
  -- ended by its caller.
  pub record Request : Type 0 where
    pub url : Text
    pub method : Method
    pub body : Option J
    pub timeout_ms : Option ℕ

  -- `json` is what `res.json()` gives, where it does not throw; `has_body` is `res.body` not null.
  pub record Response : Type 0 where
    pub is_ok : Bool
    pub status : ℕ
    pub json : Option J
    pub has_body : Bool

  pub data Fetched : Type 0 where
    network_error : (message : String) → Fetched
    answered : Response → Fetched

  -- The exceptions, with the detail of upstream where it has one worth forwarding. `not_json` is what
  -- `res.json()` throws.
  pub data UpstreamError : Type 0 where
    not_found bad_request unavailable : (detail : Option J) → UpstreamError
    unreachable : (message : Option String) → UpstreamError
    could_not_start : (status : ℕ) → UpstreamError
    not_json : UpstreamError

-- `.replace(/\/+$/, '')`
abbrev drop_slashes : Text → Text
drop_slashes [] = []
drop_slashes (c ∷ s) = if c == 47 then drop_slashes s else c ∷ s

pub strip_slashes : Text → Text
strip_slashes s = reverse (drop_slashes (reverse s))

-- The constructor's `baseUrl`.
pub base_url : Option Text → Text
base_url configured = strip_slashes (or_else configured (units "http://localhost:8001"))

-- The query with its question mark, where there is one.
abbrev pub query : Option Text → Text
query none = []
query (some qs) = if is_empty qs then [] else units "?" ++ qs

-- `mayRetry`.
abbrev pub may_retry : {J : Type 0} → UpstreamRequestOptions J → Bool
may_retry opts = or_else opts.retry_on_network_error (is_get (or_else opts.method get))

abbrev pub request_of : {J : Type 0} → Text → Text → UpstreamRequestOptions J → Request J
request_of base path opts = record {
  url = base ++ path ++ query opts.params;
  method = or_else opts.method get;
  body = opts.body;
  timeout_ms = some (or_else opts.timeout_ms default_upstream_timeout_ms);
}

module _ {J : Type 0} (json : Json J) where
  abbrev pub has : String → J → Bool
  has name body = elim (json.member name body) [ none ↦ false | some x ↦ json.truthy x ]

  -- `upstreamDetail`.
  pub upstream_detail : Response J → Option J
  upstream_detail res = elim res.json [
    | none ↦ none
    | some body ↦
        if json.truthy body && (has "status" body || has "reason" body || has "detail" body)
        then some body
        else none
  ]

  abbrev pub body_of : Option J → Result (UpstreamError J) J
  body_of none = err not_json
  body_of (some j) = ok j

  -- What a response that arrived is turned into.
  pub answer_of : Response J → Result (UpstreamError J) J
  answer_of res =
      if res.is_ok
      then body_of res.json
      else (let detail = upstream_detail res in
          if res.status == 404
          then err (not_found detail)
          else if leb 500 res.status
          then err (unavailable detail)
          else err (bad_request detail))

  module _ {W : Type 0} (fetch : Request J → W → Fetched J × W) where
    -- The loop of `request` over the attempts that are left.
    pub attempt : ℕ → Request J → Option String → Action (UpstreamError J) W J
    attempt zero req last_network_error w = (err (unreachable last_network_error), w)
    attempt (suc n) req last_network_error w =
        let (fetched, w') = fetch req w in
        elim fetched [
          | network_error message ↦ attempt n req (some message) w'
          | answered res ↦ (answer_of res, w')
        ]

    -- `request`.
    pub request : Text → Text → UpstreamRequestOptions J → Action (UpstreamError J) W J
    request base path opts =
        attempt (if may_retry opts then 2 else 1) (request_of base path opts) none

    -- `stream`: the body is handed over unread, so that the response is the answer.
    pub stream : Text → Text → J → Action (UpstreamError J) W (Response J)
    stream base path body w =
        let (fetched, w') =
          fetch (record { url = base ++ path; method = post; body = some body; timeout_ms = none })
            w in
        elim fetched [
          | network_error message ↦ (err (unreachable (some message)), w')
          | answered res ↦
              if not res.is_ok || not res.has_body
              then (err (could_not_start res.status), w')
              else (ok res, w')
        ]

    -- `SignalsUpstreamClient.generate`; the texts are those of `encodeURIComponent` and of
    -- `URLSearchParams`.
    pub generate : Text → Text → Text → Action (UpstreamError J) W J
    generate base encoded_symbol params =
        request base (units "/signals/generate/" ++ encoded_symbol) (record {
          method = some post;
          body = none;
          params = some params;
          timeout_ms = none;
          retry_on_network_error = none;
        })

    -- `SignalsUpstreamClient.chatStream`.
    pub chat_stream : Text → J → Action (UpstreamError J) W (Response J)
    chat_stream base payload = stream base (units "/signals/chat/stream") payload

-- `EVALUATE_UPSTREAM_TIMEOUT_MS`.
abbrev pub evaluate_upstream_timeout_ms : ℕ
evaluate_upstream_timeout_ms = 60000

-- `res?.results ?? []`; `rows` reads the results.
pub rows_of :
    {J W R : Type 0}
    → (J → Option (List R))
    → Result (UpstreamError J) J × W
    → Result (UpstreamError J) (List R) × W
rows_of rows (err e, w) = (err e, w)
rows_of rows (ok j, w) = (ok (or_else (rows j) []), w)

-- `SignalsUpstreamClient.evaluate`. `encode` builds the body of the call from the signals.
module _ {J : Type 0} (json : Json J) {W : Type 0} (fetch : Request J → W → Fetched J × W)
    {S R : Type 0} (encode : List S → J) (rows : J → Option (List R)) where
  pub evaluate : Text → List S → Action (UpstreamError J) W (List R)
  evaluate base [] w = (ok [], w)
  evaluate base (s ∷ signals) w = rows_of rows (
      request json fetch base (units "/signals/evaluate")
        (record {
          method = some post;
          body = some (encode (s ∷ signals));
          params = none;
          timeout_ms = some evaluate_upstream_timeout_ms;
          retry_on_network_error = some true;
        })
        w)
