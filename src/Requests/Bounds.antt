-- ===== src/Requests/Bounds.antt =====
-- chat-request.ts and market.controller.ts: what a request that is let through satisfies.
use ai_trader_api.Base.{
  ℕ, ◌≡◌, ◌+◌, ◌-◌, ◌≤◌, ◌<◌, ap, sym, ◌∙◌, inl, inr, true, false, ◌||◌, none, some, ltb, leb,
  Option, arith, Bool-cases, or_else, [],
}
use ai_trader_api.Base.Text.{Text, units, trim, is_empty}
use ai_trader_api.Base.Action.{Result, ok}
use ai_trader_api.Watchlist.{is_symbol}
use ai_trader_api.Requests.{
  is_among, exchanges, max_ticks_window_seconds, max_ticks_lookback_seconds, Parsed, natural,
  negative, not_a_number, ChatDto, NormalisedChatRequest, normal, check_message,
  normalise_chat_request, valid_ticks_range,
}

ok_injective : {E A : Type 0} {a b : A} → Path (Result E A) (ok a) (ok b) → a ≡ b
ok_injective h = cc h

check_message-ok :
    {J : Type 0} (upper : Text → Text) (body : ChatDto J) (symbol exchange : Text)
    (message : Option Text) (r : NormalisedChatRequest J)
    → check_message upper body symbol exchange message ≡ ok r
    → (r.symbol ≡ symbol)
      × (r.exchange ≡ exchange)
      × (message ≡ some r.message)
      × (is_empty (trim r.message) ≡ false)
check_message-ok upper body symbol exchange none r h = absurd (cc h)
check_message-ok upper body symbol exchange (some message) r h =
    elim (Bool-cases (is_empty (trim message))) [
      | inl e ↦ absurd (cc (rw e at h))
      | inr e ↦
          let same = ok_injective (rw e at h) in
          (
            ap (λ x. x.symbol) (sym same),
            ap (λ x. x.exchange) (sym same),
            ap (λ x. some x.message) same,
            rw⁻¹ (ap (λ x. x.message) same) e,
          )
    ]

-- A range of ticks that is let through is in order, spans at most four hours, ends at most a minute
-- from now, and starts at most seven days ago.
pub valid_ticks_range_bounds :
    (now : ℕ) (from to : Parsed) (since until : ℕ)
    → valid_ticks_range now from to ≡ ok (since, until)
    → (since < until)
      × (until ≤ since + max_ticks_window_seconds)
      × (until ≤ now + 60)
      × (now ≤ since + max_ticks_lookback_seconds)
unfolding valid_ticks_range
valid_ticks_range_bounds now not_a_number to since until h = absurd (cc h)
valid_ticks_range_bounds now negative to since until h = absurd (cc h)
valid_ticks_range_bounds now (natural s) not_a_number since until h = absurd (cc h)
valid_ticks_range_bounds now (natural s) negative since until h = absurd (cc h)
valid_ticks_range_bounds now (natural s) (natural u) since until h =
    elim (Bool-cases (ltb s (now - max_ticks_lookback_seconds) || ltb (now + 60) u)) [
      | inl e ↦ absurd (cc (rw e at h))
      | inr e ↦ elim (Bool-cases (leb u s || ltb max_ticks_window_seconds (u - s))) [
        | inl d ↦ absurd (cc (rw (e, d) at h))
        | inr d ↦
            let same : (s, u) ≡ (since, until) = ok_injective (rw (e, d) at h) in
            let first : s ≡ since = ap (λ (x : ℕ × ℕ). x.0) same in
            let second : u ≡ until = ap (λ (x : ℕ × ℕ). x.1) same in
            rw⁻¹ (first, second) (ground arith, ground arith, ground arith, ground arith)
      ]
    ]

-- A chat request that is let through is about a symbol and an exchange of the lists, in normal form,
-- and has a message that is not blank, which is sent as it came.
pub normalise_chat_request_lem :
    {J : Type 0} (upper : Text → Text) (body : ChatDto J) (r : NormalisedChatRequest J)
    → normalise_chat_request upper body ≡ ok r
    → (is_symbol r.symbol ≡ true)
      × (is_among exchanges r.exchange ≡ true)
      × (body.message ≡ some r.message)
      × (is_empty (trim r.message) ≡ false)
unfolding normalise_chat_request
normalise_chat_request_lem upper body r h =
    let symbol = normal upper (or_else body.symbol []) in
    let exchange = normal upper (or_else body.exchange (units "NSE")) in
    elim (Bool-cases (is_symbol symbol)) [
      | inr e ↦ absurd (cc (rw e at h))
      | inl e ↦ elim (Bool-cases (is_among exchanges exchange)) [
        | inr d ↦ absurd (cc (rw (e, d) at h))
        | inl d ↦
            let (same_symbol, same_exchange, sent, said) =
              check_message-ok upper body symbol exchange body.message r (rw (e, d) at h) in
            (ap is_symbol same_symbol ∙ e, ap (is_among exchanges) same_exchange ∙ d, sent, said)
      ]
    ]
