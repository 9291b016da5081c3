-- ===== src/HttpClient/Retry.antt =====
-- upstream-http.client.ts: how often a request is sent, and whose fault an error is said to be.
use ai_trader_api.Base.{
  zero, suc, String, ◌≢◌, leb, ◌==◌, Option-cases, ℕ, ◌≡◌, refl, ◌≤◌, ◌<◌, ◌⊎◌, inl, inr, Bool,
  true, false, ◌&&◌, Option, none, some, List, [], ◌∷◌, ◌++◌, if◌then◌else◌, length, arith,
  Bool-cases,
}
use ai_trader_api.Base.Text.{Text}
use ai_trader_api.Base.Action.{Result, ok, err}
use ai_trader_api.HttpClient.{
  rows_of, chat_stream, generate, evaluate, stream, Json, Request, Response, Fetched,
  UpstreamRequestOptions, UpstreamError, network_error, answered, bad_request, not_found,
  unavailable, unreachable, could_not_start, not_json, may_retry, request_of, request, attempt,
  answer_of,
}

-- The network with a log of what was sent and what came back, oldest first.
abbrev pub logged :
    {J W : Type 0}
    → (Request J → W → Fetched J × W)
    → Request J
    → W × List (Request J × Fetched J)
    → Fetched J × (W × List (Request J × Fetched J))
logged fetch req (w, log) =
    let (fetched, w') = fetch req w in (fetched, (w', log ++ (req, fetched) ∷ []))

abbrev pub is_network_error : {J : Type 0} → Fetched J → Bool
is_network_error (network_error message) = true
is_network_error (answered res) = false

Fetched-cases :
    {J : Type 0} (x : Fetched J)
    → ((m : _) × (x ≡ network_error m)) ⊎ ((r : Response J) × (x ≡ answered r))
Fetched-cases (network_error m) = inl (m, refl)
Fetched-cases (answered r) = inr (r, refl)

-- What a result says of the response it was made from.
abbrev pub Explains : {J : Type 0} → Response J → Result (UpstreamError J) J → Type 0
Explains r (ok j) = (r.is_ok ≡ true) × (r.json ≡ some j)
Explains r (err (bad_request d)) = (r.is_ok ≡ false) × (r.status < 500) × (r.status ≢ 404)
Explains r (err (not_found d)) = (r.is_ok ≡ false) × (r.status ≡ 404)
Explains r (err (unavailable d)) = (r.is_ok ≡ false) × (500 ≤ r.status)
Explains r (err (unreachable m)) = ⊥
Explains r (err (could_not_start n)) = ⊥
Explains r (err not_json) = (r.is_ok ≡ true) × (r.json ≡ none)

answer_of-Explains : {J : Type 0} (json : Json J) (r : Response J) → Explains r (answer_of json r)
unfolding answer_of
answer_of-Explains json r = elim (Bool-cases r.is_ok) [
  | inl e ↦ elim (Option-cases r.json) [
    | inl d ↦ rw (e, d) (refl, refl)
    | inr (j, d) ↦ rw (e, d) (refl, refl)
  ]
  | inr e ↦ elim (Bool-cases (r.status == 404)) [
    | inl d ↦ rw (e, d) (refl, ground arith)
    | inr d ↦ elim (Bool-cases (leb 500 r.status)) [
      | inl f ↦ rw (e, d, f) (refl, ground arith)
      | inr f ↦ rw (e, d, f) (refl, ground arith, ground arith)
    ]
  ]
]

rows_of-state :
    {J W R : Type 0} (rows : J → Option (List R)) (p : Result (UpstreamError J) J × W)
    → (rows_of rows p).1 ≡ p.1
unfolding rows_of
rows_of-state rows (ok j, w) = refl
rows_of-state rows (err e, w) = refl

module _ {J W : Type 0} (json : Json J) (fetch : Request J → W → Fetched J × W) where
  attempt-ends :
      (n : ℕ) (req : Request J) (last : Option String) (w : W)
      → let result = (attempt json fetch n req last w).0 in
        ((m : Option String) × (result ≡ err (unreachable m)))
        ⊎ ((r : Response J) × (v : W) × ((fetch req v).0 ≡ answered r) × Explains r result)
  unfolding attempt
  attempt-ends zero req last w = inl (last, refl)
  attempt-ends (suc n) req last w = elim (Fetched-cases (fetch req w).0) [
    | inl (m, e) ↦ rw (e, attempt) (attempt-ends n req (some m) (fetch req w).1)
    | inr (r, e) ↦ rw (e, attempt) (inr (r, w, e, answer_of-Explains json r))
  ]

  attempt_once :
      (req : Request J) (last : Option String) (w : W)
      → length (attempt json (logged fetch) 1 req last (w, [])).1.1 ≡ 1
  unfolding attempt
  attempt_once req last w = elim (Fetched-cases (fetch req w).0) [
    | inl (m, e) ↦ rw (e, attempt, length) refl
    | inr (r, e) ↦ rw (e, attempt, length) refl
  ]

  attempt_twice :
      (req : Request J) (last : Option String) (w : W)
      → length (attempt json (logged fetch) 2 req last (w, [])).1.1
        ≡ (if is_network_error (fetch req w).0 then 2 else 1)
  unfolding attempt
  attempt_twice req last w = elim (Fetched-cases (fetch req w).0) [
    | inr (r, e) ↦ rw (e, attempt, length) refl
    | inl (m, e) ↦ elim (Fetched-cases (fetch req (fetch req w).1).0) [
      | inl (n, d) ↦ rw (e, d, attempt, length) refl
      | inr (r, d) ↦ rw (e, d, attempt, length) refl
    ]
  ]

  module _ (base path : Text) (opts : UpstreamRequestOptions J) where
    -- A request is always answered, after one `fetch`, or after two where the first one failed on the
    -- network and the options allow to repeat it.
    pub request_fetches :
        (w : W)
        → length (request json (logged fetch) base path opts (w, [])).1.1 ≡ (
            if may_retry opts && is_network_error (fetch (request_of base path opts) w).0
            then 2
            else 1)
    unfolding request
    request_fetches w = elim (Bool-cases (may_retry opts)) [
      | inl may ↦ rw may (attempt_twice (request_of base path opts) none w)
      | inr not_may ↦ rw not_may (attempt_once (request_of base path opts) none w)
    ]

    request_twice : (w : W) → length (request json (logged fetch) base path opts (w, [])).1.1 ≤ 2
    request_twice w = ground (arith, request_fetches w)

    -- A request ends unreachable, or with what the status of a response to it says: a value is the
    -- JSON of a success, `not_found` stands for 404, `unavailable` for a status of 500 or more, and
    -- `bad_request` for any other failure, so that an outage is never said to be the caller's fault.
    pub request-Explains :
        (w : W)
        → let result = (request json fetch base path opts w).0 in
          ((m : Option String) × (result ≡ err (unreachable m)))
          ⊎ ((r : Response J) × (v : W) × ((fetch (request_of base path opts) v).0 ≡ answered r)
              × Explains r result)
    unfolding request
    request-Explains w =
        attempt-ends (if may_retry opts then 2 else 1) (request_of base path opts) none w

  stream_once :
      (base path : Text) (body : J) (w : W)
      → length (stream json (logged fetch) base path body (w, [])).1.1 ≡ 1
  unfolding stream
  stream_once base path body w = ground arith

  pub chat_stream_once :
      (base : Text) (payload : J) (w : W)
      → length (chat_stream json (logged fetch) base payload (w, [])).1.1 ≡ 1
  unfolding chat_stream
  chat_stream_once base payload w = stream_once base _ payload w

  pub generate_once :
      (base symbol params : Text) (w : W)
      → length (generate json (logged fetch) base symbol params (w, [])).1.1 ≡ 1
  unfolding generate
  generate_once base symbol params w = request_fetches base _ _ w

  evaluate_twice :
      {S R : Type 0} (base : Text) (encode : List S → J) (rows : J → Option (List R))
      (signals : List S) (w : W)
      → length (evaluate json (logged fetch) encode rows base signals (w, [])).1.1 ≤ 2
  unfolding evaluate
  evaluate_twice base encode rows [] w = omega arith
  evaluate_twice base encode rows (s ∷ signals) w =
      rw (rows_of-state rows (request json (logged fetch) base _ _ (w, [])))
        (request_twice base _ _ w)

  -- A chat turn and the generation of a signal are sent exactly once, whatever the network does;
  -- an evaluation, which may be repeated, at most twice, and not at all where there is nothing to
  -- evaluate.
  pub calls_are_sent :
      {S R : Type 0} (base : Text) (encode : List S → J) (rows : J → Option (List R)) (payload : J)
      (symbol params : Text) (signals : List S) (w : W)
      → (length (chat_stream json (logged fetch) base payload (w, [])).1.1 ≡ 1)
        × (length (generate json (logged fetch) base symbol params (w, [])).1.1 ≡ 1)
        × ((evaluate json (logged fetch) encode rows base [] (w, [])).1.1 ≡ [])
        × (length (evaluate json (logged fetch) encode rows base signals (w, [])).1.1 ≤ 2)
  unfolding chat_stream evaluate
  calls_are_sent base encode rows payload symbol params signals w = (
    stream_once base _ payload w,
    generate_once base symbol params w,
    refl,
    evaluate_twice base encode rows signals w,
  )
