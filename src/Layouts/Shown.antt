-- ===== src/Layouts/Shown.antt =====
-- chart-layouts.service.ts: what a query for one chart finds after a change of the documents.
use ai_trader_api.Base.{
  ◌≡◌, refl, ap, inl, inr, String, true, false, Option, none, some, List, [], ◌∷◌, ◌++◌,
  if◌then◌else◌, find?, arith, Bool-cases, eq_iff,
}
use mathlib.Core.Option
use ai_trader_api.Base.Collection.{update_first, delete_first}
use ai_trader_api.Base.Updates.{
  find?-update_first, find?-append_last, find?-append_other, find?-update_other, find?-delete_other,
  find?-holds,
}
use ai_trader_api.Layouts.{ChartLayout, LayoutView, is_of, view_of}
use ai_trader_api.Layouts.Keys.{HasUniqueLayouts, find?-deleted}
use ai_trader_api.Layouts.Register.{is_at}

at_same : (user key u k : String) → is_at user key u k ≡ true → (user ≡ u) × (key ≡ k)
at_same user key u k h = (ground (arith, eq_iff user u), ground (arith, eq_iff key k))

apart :
    {J : Type 0} (user key u k : String)
    → is_at user key u k ≡ false
    → (x : ChartLayout J) → is_of user key x ≡ true
    → is_of u k x ≡ false
apart user key u k h x e = ground (
  arith,
  eq_iff x.user_id user,
  eq_iff x.user_id u,
  eq_iff x.symbol key,
  eq_iff x.symbol k,
  eq_iff user u,
  eq_iff key k,
)

-- What a query for one chart finds after a change to the chart of `user` and `key`.
module _ {J : Type 0} (user key u k : String) (ds : List (ChartLayout J)) where
  abbrev view_at : List (ChartLayout J) → Option (LayoutView J)
  view_at es = Option.map view_of (find? (is_of u k) es)

  pub shows_deleted :
      HasUniqueLayouts ds
      → view_at (delete_first (is_of user key) ds)
        ≡ (if is_at user key u k then none else view_at ds)
  shows_deleted unique = elim (Bool-cases (is_at user key u k)) [
    | inl at ↦
        let (same_user, same_key) = at_same user key u k at in
        rw at (rw⁻¹ (same_user, same_key) (rw (find?-deleted user key ds unique) refl))
    | inr off ↦ rw off (
        ap (Option.map view_of)
          (find?-delete_other (is_of user key) (is_of u k) (apart user key u k off) ds))
  ]

  pub shows_updated :
      (f : ChartLayout J → ChartLayout J) (d : ChartLayout J)
      → ((x : ChartLayout J) → ((f x).user_id ≡ x.user_id) × ((f x).symbol ≡ x.symbol))
      → find? (is_of user key) ds ≡ some d
      → view_at (update_first (is_of user key) f ds)
        ≡ (if is_at user key u k then some (view_of (f d)) else view_at ds)
  shows_updated f d same e = elim (Bool-cases (is_at user key u k)) [
    | inl at ↦
        let (same_user, same_key) = at_same user key u k at in
        let own : is_of user key (f d) ≡ true =
          rw ((same d).0, (same d).1) (find?-holds (is_of user key) (λ x. x) ds d e) in
        rw at
          (rw⁻¹ (same_user, same_key) (rw (find?-update_first (is_of user key) f ds d e own) refl))
    | inr off ↦ rw off (
        ap (Option.map view_of) (
          find?-update_other (is_of user key) (is_of u k) f (λ x. rw ((same x).0, (same x).1) refl)
            (apart user key u k off) ds))
  ]

  pub shows_inserted :
      (new : ChartLayout J)
      → is_of user key new ≡ true
      → find? (is_of user key) ds ≡ none
      → view_at (ds ++ new ∷ []) ≡ (if is_at user key u k then some (view_of new) else view_at ds)
  shows_inserted new own e = elim (Bool-cases (is_at user key u k)) [
    | inl at ↦
        let (same_user, same_key) = at_same user key u k at in
        rw at
          (rw⁻¹ (same_user, same_key) (rw (find?-append_last (is_of user key) new ds e own) refl))
    | inr off ↦ rw off (
        ap (Option.map view_of)
          (find?-append_other (is_of u k) new ds (apart user key u k off new own)))
  ]

  pub shows_same :
      view_at ds
      ≡ (if is_at user key u k then Option.map view_of (find? (is_of user key) ds) else view_at ds)
  shows_same = elim (Bool-cases (is_at user key u k)) [
    | inl at ↦
        let (same_user, same_key) = at_same user key u k at in rw at (rw (same_user, same_key) refl)
    | inr off ↦ rw off refl
  ]
