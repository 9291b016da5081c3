-- ===== src/Guards/Tests.antt =====
-- Runs of the guards.
use ai_trader_api.Base.{
  ℕ, ◌≡◌, ◌⊎◌, inl, inr, refl, Bool, true, Option, none, some, List, [], ◌∷◌, Bool-cases, arith,
  subst,
}
use ai_trader_api.Base.Text.{units, text_eq, text_eq_refl, text_eq_sound}
use ai_trader_api.Base.Action.{ok, err}
use ai_trader_api.Guards.{
  allows_role, no_access, invalid_key, single, several, header_key, allows_internal,
}
use ai_trader_api.Guards.InternalKey.{IsComparison, KnowsKey, allows_internal_lem}

open_route_run : allows_role none none ≡ ok true
unfolding allows_role
open_route_run = refl

admin_run : allows_role (some ("admin" ∷ [])) (some "admin") ≡ ok true
unfolding allows_role
admin_run = refl

user_run : allows_role (some ("admin" ∷ [])) (some "user") ≡ err no_access
unfolding allows_role
user_run = refl

-- A comparison that meets the law.
abbrev compare : List ℕ → List ℕ → Option Bool
compare a b = some (text_eq a b)

compare-IsComparison : IsComparison compare
compare-IsComparison = record {
  compares = λ a b same. elim (Bool-cases (text_eq a b)) [
    | inl e ↦ rw e (inl (refl, text_eq_sound a b e))
    | inr e ↦
        rw e
          (inr (refl, λ p. ground (arith, e, subst (λ t. text_eq a t ≡ true) p (text_eq_refl a))))
  ];
}

other_key_run :
    allows_internal units compare (some "secret") (several ("secre7" ∷ "secret" ∷ []))
    ≡ some (err invalid_key)
unfolding allows_internal
other_key_run = refl

allows_internal_lem_example :
    (KnowsKey units (some "secret") (header_key (single "secret"))
      × (allows_internal units compare (some "secret") (single "secret") ≡ some (ok true)))
    ⊎ ((¬ KnowsKey units (some "secret") (header_key (single "secret")))
        × (allows_internal units compare (some "secret") (single "secret")
            ≡ some (err invalid_key)))
allows_internal_lem_example =
    allows_internal_lem units compare compare-IsComparison (some "secret") (single "secret")
