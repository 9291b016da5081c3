-- ===== src/Layouts/Keys.antt =====
-- chart-layout.schema.ts: one document for a user and a symbol, and what a query finds then.
use ai_trader_api.Base.{
  ◌≡◌, refl, ◌∙◌, inl, inr, String, Bool, true, false, ◌&&◌, none, some, List, [], ◌∷◌, ◌++◌, find?,
  arith, Bool-cases, eq_iff,
}
use ai_trader_api.Base.Collection.{update_first, delete_first}
use ai_trader_api.Base.Updates.{
  find?-update_none, find?-delete_none, find?-and-none, find?-append_other,
}
use ai_trader_api.Layouts.{ChartLayout, is_of, same_layout}

-- No two documents of one user and symbol.
abbrev pub HasUniqueLayouts : {J : Type 0} → List (ChartLayout J) → Type 0
HasUniqueLayouts [] = Unit
HasUniqueLayouts (d ∷ ds) = (find? (same_layout d) ds ≡ none) × HasUniqueLayouts ds

module _ {J : Type 0} where
  pub is_of→eq :
      (user symbol : String) (d : ChartLayout J)
      → is_of user symbol d ≡ true
      → (d.user_id ≡ user) × (d.symbol ≡ symbol)
  is_of→eq user symbol d h =
      (ground (arith, eq_iff d.user_id user), ground (arith, eq_iff d.symbol symbol))

  pub is_of_refl :
      (user symbol : String) (d : ChartLayout J)
      → d.user_id ≡ user
      → d.symbol ≡ symbol
      → is_of user symbol d ≡ true
  is_of_refl user symbol d h k = ground (arith, eq_iff d.user_id user, eq_iff d.symbol symbol)

  same_layout-sym : (d e : ChartLayout J) → same_layout d e ≡ same_layout e d
  same_layout-sym d e = ground (
    arith,
    eq_iff d.user_id e.user_id,
    eq_iff e.user_id d.user_id,
    eq_iff d.symbol e.symbol,
    eq_iff e.symbol d.symbol,
  )

  module _ (user symbol : String) where
    no_other :
        (d : ChartLayout J) (ds : List (ChartLayout J))
        → is_of user symbol d ≡ true
        → find? (same_layout d) ds ≡ none
        → find? (is_of user symbol) ds ≡ none
    no_other d ds e h = let (u, k) = is_of→eq user symbol d e in rw⁻¹ (u, k) h

    -- No query finds the document of a user and a symbol by a further test that it fails.
    pub find?-unique :
        (t : ChartLayout J → Bool) (ds : List (ChartLayout J)) (d : ChartLayout J)
        → HasUniqueLayouts ds
        → find? (is_of user symbol) ds ≡ some d
        → t d ≡ false
        → find? (λ x. is_of user symbol x && t x) ds ≡ none
    find?-unique t [] d u h k = refl
    find?-unique t (x ∷ ds) d u h k = elim (Bool-cases (is_of user symbol x)) [
      | inl e ↦
          let same : x ≡ d = cc (rw e at h) in
          let fails : t x ≡ false = rw same k in
          rw (e, fails) (find?-and-none (is_of user symbol) t ds (no_other x ds e u.0))
      | inr e ↦ rw e (find?-unique t ds d u.1 (rw e at h) k)
    ]

    pub find?-deleted :
        (ds : List (ChartLayout J))
        → HasUniqueLayouts ds
        → find? (is_of user symbol) (delete_first (is_of user symbol) ds) ≡ none
    find?-deleted [] u = refl
    find?-deleted (x ∷ ds) u = elim (Bool-cases (is_of user symbol x)) [
      | inl e ↦ rw e (no_other x ds e u.0)
      | inr e ↦ rw e (rw e (find?-deleted ds u.1))
    ]

-- What keeps the index.
module _ {J : Type 0} (p : ChartLayout J → Bool) where
  pub update-HasUniqueLayouts :
      (f : ChartLayout J → ChartLayout J)
      → ((d : ChartLayout J) → ((f d).user_id ≡ d.user_id) × ((f d).symbol ≡ d.symbol))
      → (ds : List (ChartLayout J)) → HasUniqueLayouts ds
      → HasUniqueLayouts (update_first p f ds)
  update-HasUniqueLayouts f same [] u = tt
  update-HasUniqueLayouts f same (d ∷ ds) u = elim (Bool-cases (p d)) [
    | inl e ↦ rw e (rw ((same d).0, (same d).1) u.0, u.1)
    | inr e ↦ rw e (
      find?-update_none p (same_layout d) f (λ x. rw ((same x).0, (same x).1) refl) ds u.0,
      update-HasUniqueLayouts f same ds u.1,
    )
  ]

  pub delete-HasUniqueLayouts :
      (ds : List (ChartLayout J)) → HasUniqueLayouts ds → HasUniqueLayouts (delete_first p ds)
  delete-HasUniqueLayouts [] u = tt
  delete-HasUniqueLayouts (d ∷ ds) u = elim (Bool-cases (p d)) [
    | inl e ↦ rw e u.1
    | inr e ↦ rw e (find?-delete_none p (same_layout d) ds u.0, delete-HasUniqueLayouts ds u.1)
  ]

pub append-HasUniqueLayouts :
    {J : Type 0} (d : ChartLayout J) (ds : List (ChartLayout J))
    → find? (same_layout d) ds ≡ none
    → HasUniqueLayouts ds
    → HasUniqueLayouts (ds ++ d ∷ [])
append-HasUniqueLayouts d [] h u = (refl, tt)
append-HasUniqueLayouts d (e ∷ ds) h u = elim (Bool-cases (same_layout d e)) [
  | inl clash ↦ absurd (cc (rw clash at h))
  | inr apart ↦
      let apart' : same_layout e d ≡ false = rw (same_layout-sym e d) apart in
      (
        find?-append_other (same_layout e) d ds apart' ∙ u.0,
        append-HasUniqueLayouts d ds (rw apart at h) u.1,
      )
]
