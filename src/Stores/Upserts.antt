-- ===== src/Stores/Upserts.antt =====
-- What a query finds after an upsert of the document that it asks for.
use ai_trader_api.Base.{
  ◌≡◌, refl, ap, ◌∙◌, Bool, true, false, none, some, find?, any, inl, inr, Option-cases,
}
use mathlib.Core.Option
use ai_trader_api.Base.Collection.{Collection, IsLawful, upsert}
use ai_trader_api.Base.Updates.{
  find?-append_last, find?-update_first, find?-holds, update_first-none,
}

module _ {S Doc : Type 0} (clash : Doc → Doc → Bool) (c : Collection S Doc) (law : IsLawful clash c)
    (p : Doc → Bool) (f : Doc → Doc) (d : Doc) (named : p d ≡ true)
    (kept : (x : Doc) → p x ≡ true → p (f x) ≡ true) where
  -- Where the unique index lets the document stand beside all that the query does not meet.
  pub find_one-upsert :
      (s : S)
      → (find? p (law.docs s) ≡ none → any (clash d) (law.docs s) ≡ false)
      → c.find_one p (upsert c p f d s).1 ≡ some (upsert c p f d s).0
  find_one-upsert s free = elim (Option-cases (find? p (law.docs s))) [
    | inr (x, e) ↦
        let s' = (c.find_one_and_update p f s).1 in
        let updated = law.updated p f s ∙ ap (Option.map f) e in
        rw (updated, upsert)
          (law.find_one_lem p s'
            ∙ rw (law.docs-update p f s) (
                find?-update_first p f (law.docs s) x e
                  (kept x (find?-holds p f (law.docs s) x e))))
    | inl e ↦
        let s' = (c.find_one_and_update p f s).1 in
        let updated = law.updated p f s ∙ ap (Option.map f) e in
        let same : law.docs s' ≡ law.docs s =
          law.docs-update p f s ∙ update_first-none p f (law.docs s) e in
        let (s'', made) = law.create_free d s' (rw same (free e)) in
        rw (updated, upsert, made)
          (law.find_one_lem p s''
            ∙ rw (law.created d s' s'' made, same) (find?-append_last p d (law.docs s) e named))
  ]

module _ {S Doc : Type 0} (clash : Doc → Doc → Bool) (c : Collection S Doc) (law : IsLawful clash c)
    (p : Doc → Bool) (d : Doc) (named : p d ≡ true) where
  pub upsert-replace : (s : S) → (upsert c p (λ _. d) d s).0 ≡ d
  upsert-replace s = elim (Option-cases (find? p (law.docs s))) [
    | inr (x, e) ↦ rw (law.updated p (λ _. d) s ∙ ap (Option.map (λ _. d)) e, upsert) refl
    | inl e ↦
        let s' = (c.find_one_and_update p (λ _. d) s).1 in
        rw (law.updated p (λ _. d) s ∙ ap (Option.map (λ _. d)) e, upsert)
          (elim (Option-cases (c.create d s')) [ inl e' ↦ rw e' refl | inr (s'', e') ↦ rw e' refl ])
  ]

  -- The same where the update sets the whole document.
  pub find_one-replace :
      (s : S)
      → (find? p (law.docs s) ≡ none → any (clash d) (law.docs s) ≡ false)
      → c.find_one p (upsert c p (λ _. d) d s).1 ≡ some d
  find_one-replace s free =
      find_one-upsert clash c law p (λ _. d) d named (λ x _. named) s free
      ∙ ap some (upsert-replace s)
