-- ===== src/HttpClient/Tests.antt =====
-- Runs of the HTTP client on a network that replays a script.
use ai_trader_api.Base.{
  ◌≡◌, refl, ◌⊎◌, String, true, false, Option, none, some, List, [], ◌∷◌, length, str_eq,
}
use ai_trader_api.Base.Text.{units}
use ai_trader_api.Base.Action.{ok, err}
use ai_trader_api.HttpClient.{
  rows_of, answer_of, attempt, stream, strip_slashes, upstream_detail, Json, Request, Response,
  Fetched, UpstreamRequestOptions, network_error, answered, unreachable, request_of, request,
  base_url, unavailable, chat_stream, generate, evaluate,
}
use ai_trader_api.HttpClient.Retry.{Explains, logged, request_fetches, request-Explains}

-- A JSON value is a text; the empty one is falsy, and only `status` is ever there.
abbrev texts : Json String
texts = record {
  truthy = λ s. elim (str_eq s "") [ true ↦ false | false ↦ true ];
  member = λ name s. elim (str_eq name "status") [ true ↦ some s | false ↦ none ];
}

abbrev replay : Request String → List (Fetched String) → Fetched String × List (Fetched String)
replay req [] = (network_error "down", [])
replay req (f ∷ fs) = (f, fs)

abbrev busy : Response String
busy = record { is_ok = false; status = 503; json = some "busy"; has_body = true }

abbrev fine : Response String
fine = record { is_ok = true; status = 200; json = some "fine"; has_body = true }

abbrev plain : UpstreamRequestOptions String
plain = record {
  method = none;
  body = none;
  params = none;
  timeout_ms = none;
  retry_on_network_error = none;
}

abbrev script : List (Fetched String)
script = network_error "reset" ∷ answered busy ∷ []

base_url_run : base_url (some (units "http://a//")) ≡ units "http://a"
unfolding base_url strip_slashes
base_url_run = refl

busy_run : (request texts replay [] [] plain script).0 ≡ err (unavailable (some "busy"))
unfolding request attempt answer_of upstream_detail
busy_run = refl

stream_run :
    chat_stream texts replay [] "turn" script
    ≡ (err (unreachable (some "reset")), answered busy ∷ [])
unfolding chat_stream stream
stream_run = refl

generate_run : (generate texts replay [] [] [] script).0 ≡ err (unreachable (some "reset"))
unfolding generate request attempt
generate_run = refl

abbrev ids : List String
ids = "id" ∷ []

abbrev encode_ids : List String → String
encode_ids _ = "ids"

evaluate_run :
    (evaluate texts replay encode_ids
      (λ j. some (j ∷ []))
      []
      ids
      (network_error "reset" ∷ answered fine ∷ [])).0
    ≡ ok ("fine" ∷ [])
unfolding evaluate rows_of request attempt answer_of
evaluate_run = refl

abbrev as_rows : String → Option (List String)
as_rows j = some (j ∷ [])

request_fetches_example : length (request texts (logged replay) [] [] plain (script, [])).1.1 ≡ 2
request_fetches_example = request_fetches texts replay [] [] plain script

request-Explains_example :
    ((m : Option String) × ((request texts replay [] [] plain script).0 ≡ err (unreachable m)))
    ⊎ ((r : Response String) × (v : List (Fetched String)) × ((replay (request_of [] [] plain) v).0
          ≡ answered r)
        × Explains r (request texts replay [] [] plain script).0)
request-Explains_example = request-Explains texts replay [] [] plain script
