-- ===== src/Guards/InternalKey.antt =====
-- internal-key.guard.ts: who passes.
use ai_trader_api.Base.{
  ℕ, ◌≡◌, ◌≢◌, ◌⊎◌, refl, String, Bool, true, false, Option, some, List, length, inl, inr,
  Bool-cases, Option-cases, ◌==◌, ◌||◌, arith, str_eq, ap,
}
use mathlib.Core.Option.{some-injective}
use ai_trader_api.Base.Action.{ok, err}
use ai_trader_api.Guards.{Header, invalid_key, header_key, timing_safe_equal_str, allows_internal}

-- The documented meaning of `timingSafeEqual`: buffers of one length are compared, without a throw.
pub record IsComparison (timing_safe_equal : List ℕ → List ℕ → Option Bool) : Type 0 where
  pub compares :
      (a b : List ℕ)
      → length a ≡ length b
      → ((timing_safe_equal a b ≡ some true) × (a ≡ b))
        ⊎ ((timing_safe_equal a b ≡ some false) × (a ≢ b))

-- What is configured and what is sent is the same key, and not empty.
abbrev pub KnowsKey : (String → List ℕ) → Option String → Option String → Type 0
KnowsKey utf8 configured sent =
    (key : String) × (given : String) × (configured ≡ some key)
    × (sent ≡ some given)
    × (str_eq key "" || str_eq given "" ≡ false)
    × (utf8 key ≡ utf8 given)

KnowsKey-parts :
    (utf8 : String → List ℕ) (key given : String)
    → KnowsKey utf8 (some key) (some given)
    → (str_eq key "" || str_eq given "" ≡ false) × (utf8 key ≡ utf8 given)
KnowsKey-parts utf8 key given (k, g, kept, sent, named, same) =
    let same_key : key ≡ k = some-injective key k kept in
    let same_given : given ≡ g = some-injective given g sent in
    rw (same_key, same_given) (named, same)

module _ (utf8 : String → List ℕ) (timing_safe_equal : List ℕ → List ℕ → Option Bool)
    (law : IsComparison timing_safe_equal) where
  -- The comparison is of the bytes, and never throws.
  compares_bytes :
      (key given : String)
      → ((timing_safe_equal_str utf8 timing_safe_equal key given ≡ some true)
          × (utf8 key ≡ utf8 given))
        ⊎ ((timing_safe_equal_str utf8 timing_safe_equal key given ≡ some false)
            × (utf8 key ≢ utf8 given))
  compares_bytes key given = elim (Bool-cases (length (utf8 key) == length (utf8 given))) [
    | inl same ↦ rw (same) (law.compares (utf8 key) (utf8 given) (ground arith))
    | inr apart ↦ rw (apart) (inr (refl, λ e. ground (arith, ap length e)))
  ]

  -- A request passes exactly if its header carries the configured key, byte for byte, and neither
  -- is empty; any other request is refused as one with an invalid key, and the guard ends in no
  -- other error: also where no key is configured, or the lengths differ.
  pub allows_internal_lem :
      (configured : Option String) (header : Header)
      → (KnowsKey utf8 configured (header_key header)
          × (allows_internal utf8 timing_safe_equal configured header ≡ some (ok true)))
        ⊎ ((¬ KnowsKey utf8 configured (header_key header))
            × (allows_internal utf8 timing_safe_equal configured header ≡ some (err invalid_key)))
  unfolding allows_internal
  allows_internal_lem configured header = elim (Option-cases configured) [
    | inl c ↦ rw c (inr (λ (_, _, kept, _, _, _). ground (arith, kept), refl))
    | inr (key, c) ↦ elim (Option-cases (header_key header)) [
      | inl h ↦ rw (c, h) (inr (λ (_, _, _, sent, _, _). ground (arith, sent), refl))
      | inr (given, h) ↦ elim (Bool-cases (str_eq key "" || str_eq given "")) [
        | inl empty ↦
            rw (c, h, empty)
              (inr (λ k. ground (arith, (KnowsKey-parts utf8 key given k).0, empty), refl))
        | inr full ↦ elim (compares_bytes key given) [
          | inl (s, same) ↦ rw (c, h, full, s) (inl ((key, given, refl, refl, full, same), refl))
          | inr (s, differ) ↦
              rw (c, h, full, s) (inr (λ k. differ (KnowsKey-parts utf8 key given k).1, refl))
        ]
      ]
    ]
  ]
