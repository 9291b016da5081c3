-- ===== src/Chat/Capping.antt =====
-- chat-sessions.service.ts: what `capEvents` keeps.
use ai_trader_api.Base.{
  ℕ, ◌≡◌, refl, ◌+◌, ◌-◌, ◌/◌, ◌<◌, false, List, [], ◌∷◌, ◌++◌, leb, length, take, drop, arith,
  length-append, length-take, length-drop, ap, subst,
}
use ai_trader_api.Chat.{StoredEvent, truncated, cap_events}

module _ {A : Type 0} where
  take-append : (xs ys : List A) → take (length xs) (xs ++ ys) ≡ xs
  take-append [] ys = refl
  take-append (x ∷ xs) ys = ap (◌∷◌ x) (take-append xs ys)

  drop-append : (xs ys : List A) → drop (length xs) (xs ++ ys) ≡ ys
  drop-append [] ys = refl
  drop-append (x ∷ xs) ys = drop-append xs ys

module _ {J : Type 0} (events : List (StoredEvent J)) (max : ℕ) (long : max < length events) where
  abbrev head : List (StoredEvent J)
  head = take (max / 2) events

  abbrev tail : List (StoredEvent J)
  tail = truncated (length events - max) ∷ drop (length events - (max - max / 2)) events

  half-length : length head ≡ max / 2
  half-length = omega (arith, length-take (max / 2) events)

  -- Of a stream longer than `max`, the first half of `max` and as many of the last events as make up
  -- `max` are stored, with one marker between that says how many are left out: `max` + 1 elements.
  pub cap_events_lem :
      let kept = cap_events events max in
      (length kept ≡ max + 1)
      × (take (max / 2) kept ≡ take (max / 2) events)
      × (drop (max / 2) kept
          ≡ truncated (length events - max) ∷ drop (length events - (max - max / 2)) events)
  unfolding cap_events
  cap_events_lem =
      let over : leb (length events) max ≡ false = ground arith in
      rw over (
        omega (
          arith,
          length-append head tail,
          half-length,
          length-drop (length events - (max - max / 2)) events,
        ),
        subst (λ n. take n (head ++ tail) ≡ head) half-length (take-append head tail),
        subst (λ n. drop n (head ++ tail) ≡ tail) half-length (drop-append head tail),
      )
