-- ===== src/Indicators/Ownership.antt =====
-- indicators.service.ts: a user changes only the user's own indicators.
use ai_trader_api.Base.{
  ℕ, ◌≡◌, refl, ap, ◌∙◌, inl, inr, String, Bool, true, false, not, List, [], ◌∷◌, ◌++◌, filter,
  arith, Bool-cases, Option-cases, eq_iff, ◌==◌,
}
use ai_trader_api.Base.Text.{Text}
use ai_trader_api.Base.Collection.{Collection, IsLawful, update_first, delete_first}
use ai_trader_api.Indicators.{
  Indicator, IndicatorDto, same_indicator, is_owned_by, is_own, set_dto, custom, slugify, create,
  update, remove,
}

-- The calls of one user.
pub data Call : Type 0 where
  create_call : (suffix : Text) (now : ℕ) → IndicatorDto → Call
  update_call : (now : ℕ) (id : Text) → IndicatorDto → Call
  remove_call : (id : Text) → Call

-- Changes at documents that fail a test leave those that pass it.
module _ {A : Type 0} (p q : A → Bool) (apart : (x : A) → q x ≡ true → p x ≡ false) where
  filter-update :
      (f : A → A)
      → ((x : A) → p (f x) ≡ p x)
      → (xs : List A) → filter p (update_first q f xs) ≡ filter p xs
  filter-update f same [] = refl
  filter-update f same (x ∷ xs) = ground (arith, same x, apart x, filter-update f same xs)

  filter-delete : (xs : List A) → filter p (delete_first q xs) ≡ filter p xs
  filter-delete [] = refl
  filter-delete (x ∷ xs) = ground (arith, apart x, filter-delete xs)

filter-last :
    {A : Type 0} (p : A → Bool) (xs : List A) (y : A)
    → p y ≡ false
    → filter p (xs ++ y ∷ []) ≡ filter p xs
filter-last p [] y h = rw h refl
filter-last p (x ∷ xs) y h = ground (arith, filter-last p xs y h)

module _ {S : Type 0} (indicators : Collection S Indicator) (lower : Text → Text)
    (user : String) where
  pub perform : Call → S → S
  perform (create_call suffix now dto) s = (create indicators lower suffix now user dto s).1
  perform (update_call now id dto) s = (update indicators now user id dto s).1
  perform (remove_call id) s = (remove indicators user id s).1

  pub run : List Call → S → S
  run [] s = s
  run (c ∷ cs) s = run cs (perform c s)

  abbrev pub is_foreign : Indicator → Bool
  is_foreign d = not (is_owned_by user d)

  apart : (id : Text) (d : Indicator) → is_own user id d ≡ true → is_foreign d ≡ false
  apart id d h = ground arith

  module _ (law : IsLawful same_indicator indicators) where
    perform-foreign :
        (c : Call) (s : S)
        → filter is_foreign (law.docs (perform c s)) ≡ filter is_foreign (law.docs s)
    unfolding perform create update remove
    perform-foreign (create_call suffix now dto) s =
        let doc = custom (slugify lower suffix dto.name) user now dto in
        elim (Option-cases (indicators.create doc s)) [
          | inl e ↦ rw (e, create, perform) refl
          | inr (s', e) ↦
              rw (e, create, perform)
                (rw (law.created doc s s' e)
                  (filter-last is_foreign (law.docs s) doc (ground (arith, eq_iff user user))))
        ]
    perform-foreign (update_call now id dto) s =
        let (updated, s') = indicators.find_one_and_update (is_own user id) (set_dto now dto) s in
        let same =
          ap (filter is_foreign) (law.docs-update (is_own user id) (set_dto now dto) s)
          ∙ filter-update is_foreign (is_own user id) (apart id) (set_dto now dto) (λ d. refl)
              (law.docs s) in
        elim (Option-cases updated) [
          | inl e ↦ rw (e, update, perform) same
          | inr (d, e) ↦ rw (e, update, perform) same
        ]
    perform-foreign (remove_call id) s =
        let (deleted, s') = indicators.delete_one (is_own user id) s in
        let same =
          ap (filter is_foreign) (law.docs-delete_one (is_own user id) s)
          ∙ filter-delete is_foreign (is_own user id) (apart id) (law.docs s) in
        elim (Bool-cases (deleted == 0)) [
          | inl e ↦ rw (e, remove, perform) same
          | inr e ↦ rw (e, remove, perform) same
        ]

    -- Whatever calls a user makes, the defaults and the indicators of other users stay as they are.
    pub foreign_indicators_stay :
        (cs : List Call) (s : S)
        → filter is_foreign (law.docs (run cs s)) ≡ filter is_foreign (law.docs s)
    unfolding run
    foreign_indicators_stay [] s = refl
    foreign_indicators_stay (c ∷ cs) s =
        foreign_indicators_stay cs (perform c s) ∙ perform-foreign c s
