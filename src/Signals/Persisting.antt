-- ===== src/Signals/Persisting.antt =====
-- signals.service.ts: a signal that is published again.
use ai_trader_api.Base.{
  ℕ, ◌≡◌, ◌≢◌, refl, ap, inl, inr, String, Bool, true, false, Option, none, some, List, [], ◌∷◌,
  ◌++◌, any, str_eq, arith, Bool-cases, eq_iff,
}
use ai_trader_api.Base.Double.{Double}
use ai_trader_api.Base.Action.{Result, ok, err}
use ai_trader_api.Signals.{
  SignalMessage, NewSignal, Signal, SignalStore, IsSignalStore, World, CreateError, duplicate_key,
  other_error, same_instant, same_signal, to_signal_document, publish, is_restatement,
  persist_signal,
}

any-last :
    {A : Type 0} (p : A → Bool) (xs : List A) (y : A) → p y ≡ true → any p (xs ++ y ∷ []) ≡ true
any-last p [] y h = rw h refl
any-last p (x ∷ xs) y h = ground (arith, any-last p xs y h)

same_instant_refl : (a : Option ℕ) → same_instant a a ≡ true
same_instant_refl none = refl
same_instant_refl (some n) = ground arith

same_signal_refl :
    {N J : Type 0} (n : NewSignal N J) (d : Signal N J) → d.fields ≡ n → same_signal n d ≡ true
same_signal_refl n d h = rw h (
    ground (
      arith,
      eq_iff n.symbol n.symbol,
      eq_iff n.direction n.direction,
      same_instant_refl n.generated_at,
    ))

publish-ok :
    {S N J : Type 0} (sent : List (Signal N J)) (p : Result CreateError (Signal N J) × S)
    (d : Signal N J)
    → (publish sent p).0 ≡ ok (some d)
    → (p ≡ (ok d, p.1)) × ((publish sent p).1.store ≡ p.1)
publish-ok sent (ok e, s) d h = (ap (λ x. (ok x, s)) (cc h), refl)
publish-ok sent (err duplicate_key, s) d h = absurd (cc h)
publish-ok sent (err other_error, s) d h = absurd (cc h)

module _ {S N J : Type 0} (signals : SignalStore S N J) (num : Double N) (abs : N → N)
    (tolerance : N) (parse_date : String → Option ℕ) (no_indicators : J)
    (law : IsSignalStore signals) where
  stored_is_there :
      (payload : SignalMessage N J) (now : ℕ) (w : World S N J) (d : Signal N J)
      → (persist_signal signals num abs tolerance parse_date no_indicators payload now w).0
        ≡ ok (some d)
      → any (same_signal (to_signal_document parse_date no_indicators payload now)) (
          law.docs
            (persist_signal signals num abs tolerance parse_date no_indicators payload now
              w).1.store)
        ≡ true
  unfolding persist_signal
  stored_is_there payload now w d stored =
      let doc = to_signal_document parse_date no_indicators payload now in
      elim (Bool-cases
        (is_restatement signals num abs tolerance parse_date no_indicators doc now w.store)) [
          | inl e ↦ absurd (cc (rw (e, persist_signal) at stored))
          | inr e ↦
              let (created, kept) =
                publish-ok w.broadcast (signals.create doc now w.store) d
                  (rw (e, persist_signal) at stored) in
              let (grown, same) =
                law.created doc now w.store (signals.create doc now w.store).1 d created in
              rw (e, kept, grown)
                (any-last (same_signal doc) (law.docs w.store) d (same_signal_refl doc d same))
        ]

  clash_is_ignored :
      (payload : SignalMessage N J) (now : ℕ) (w : World S N J)
      → any
          (same_signal (to_signal_document parse_date no_indicators payload now))
          (law.docs w.store)
        ≡ true
      → persist_signal signals num abs tolerance parse_date no_indicators payload now w
        ≡ (ok none, w)
  unfolding persist_signal
  clash_is_ignored payload now w h =
      let doc = to_signal_document parse_date no_indicators payload now in
      elim (Bool-cases
        (is_restatement signals num abs tolerance parse_date no_indicators doc now w.store)) [
          | inl e ↦ rw e refl
          | inr e ↦ rw (e, law.clash doc now w.store h) refl
        ]

  same_document :
      (payload : SignalMessage N J) (generated : String) (now later : ℕ)
      → payload.generated_at ≡ some generated
      → generated ≢ ""
      → to_signal_document parse_date no_indicators payload now
        ≡ to_signal_document parse_date no_indicators payload later
  unfolding to_signal_document
  same_document payload generated now later dated real =
      let is_real : str_eq generated "" ≡ false = ground (arith, eq_iff generated "") in
      rw (dated, is_real) refl

  -- A signal with the time it was generated at, which was stored, is not stored a second time when it
  -- is published again, at whatever later time, and is not broadcast again.
  pub retried_signal_is_ignored :
      (payload : SignalMessage N J) (generated : String) (now later : ℕ) (w : World S N J)
      (d : Signal N J)
      → payload.generated_at ≡ some generated
      → generated ≢ ""
      → (persist_signal signals num abs tolerance parse_date no_indicators payload now w).0
        ≡ ok (some d)
      → let w' =
          (persist_signal signals num abs tolerance parse_date no_indicators payload now w).1 in
        persist_signal signals num abs tolerance parse_date no_indicators payload later w'
        ≡ (ok none, w')
  retried_signal_is_ignored payload generated now later w d dated real stored =
      clash_is_ignored payload later _ (
        rw⁻¹ (same_document payload generated now later dated real)
          (stored_is_there payload now w d stored))
