-- ===== src/Layouts/Conflicts.antt =====
-- chart-layouts.service.ts: what a save that landed means for what comes after it.

use ai_trader_api.Base.{
  ℕ, ◌≡◌, refl, sym, ap, ◌∙◌, ◌+◌, inl, inr, String, true, Option, some, ◌==◌, or_else, arith,
  Bool-cases, eq_iff, ==_iff,
}
use ai_trader_api.Base.Action.{ok, err}
use ai_trader_api.Layouts.{
  LayoutView, SaveLayoutDto, LayoutStore, IsLayoutStore, blank, view_of, get, save,
}
use ai_trader_api.Layouts.Keys.{HasUniqueLayouts}
use ai_trader_api.Layouts.Register.{step, register_step, is_at, written, register_save}
use ai_trader_api.Layouts.Saves.{chart_of, get-eq, save-SaveOutcome}
use ai_trader_api.Layouts.Refinement.{save-Simulates}

at_itself : (user key : String) → is_at user key user key ≡ true
at_itself user key = ground (arith, eq_iff user user, eq_iff key key)

register_holds :
    {J : Type 0} (upper : String → String) (key : String) (dto : SaveLayoutDto J) (now : ℕ)
    (r : Option (LayoutView J)) (view : LayoutView J)
    → (register_save upper key dto now r).0 ≡ ok view
    → ((register_save upper key dto now r).1 ≡ some view)
      × (view.version ≡ or_else dto.version 0 + 1)
register_holds upper key dto now r view h =
    let v = or_else r (blank key) in
    elim (Bool-cases (v.version == or_else dto.version 0)) [
      | inl z ↦
          let same : written upper dto now v ≡ view = cc (rw z at h) in
          let version : v.version ≡ or_else dto.version 0 =
            ground (arith, ==_iff v.version (or_else dto.version 0)) in
          (rw z (ap some same), ap (λ x. x.version) (sym same) ∙ ap (λ n. n + 1) version)
      | inr nz ↦ absurd (cc (rw nz at h))
    ]

module _ {S J : Type 0} (layouts : LayoutStore S J) (upper : String → String)
    (law : IsLayoutStore layouts) (user symbol : String) (dto : SaveLayoutDto J) (now : ℕ) (s : S)
    (view : LayoutView J) (unique : HasUniqueLayouts (law.docs s))
    (saved : (save layouts upper user symbol dto now s).0 ≡ ok view) where
  after : S
  after = (save layouts upper user symbol dto now s).1

  chart_holds :
      (chart_of layouts upper law after user (upper symbol) ≡ some view)
      × (view.version ≡ or_else dto.version 0 + 1)
      × HasUniqueLayouts (law.docs after)
  unfolding after step register_step
  chart_holds =
      let (answer, (kept, shows)) = save-Simulates layouts upper law s unique user symbol dto now in
      let (held, version) =
        register_holds upper (upper symbol) dto now
          (chart_of layouts upper law s user (upper symbol)) view (sym answer ∙ saved) in
      (shows user (upper symbol) ∙ rw (at_itself user (upper symbol)) held, version, kept)

  -- A chart that was saved is read back as the save answered it.
  pub get-save : get layouts upper user symbol (save layouts upper user symbol dto now s).1 ≡ view
  unfolding after
  get-save = get-eq layouts upper law user symbol after ∙ rw chart_holds.0 refl

  -- Of two saves that name the same version the second is refused: it is told the version of the
  -- first, which is one more, and it changes no document.
  pub stale_save_is_refused :
      (dto' : SaveLayoutDto J) (now' : ℕ)
      → or_else dto'.version 0 ≡ or_else dto.version 0
      → let s' = (save layouts upper user symbol dto now s).1 in
        let (answer, s'') = save layouts upper user symbol dto' now' s' in
        (answer ≡ err (record { current_version = or_else dto.version 0 + 1 }))
        × (law.docs s'' ≡ law.docs s')
  unfolding after
  stale_save_is_refused dto' now' stale =
      let (held, version, kept) = chart_holds in
      elim (save-SaveOutcome layouts upper law user symbol dto' now' after kept) [
        | inl (d, e, z, a, b) ↦
            let same : view_of d ≡ view = cc (rw e at held) in
            let newer : d.version ≡ or_else dto.version 0 + 1 =
              ap (λ x. x.version) same ∙ version in
            absurd (ground (arith, ==_iff d.version (or_else dto'.version 0)))
        | inr (inl (e, z, a, b)) ↦ absurd (cc (rw e at held))
        | inr (inr (z, a, b)) ↦ (a ∙ rw (held, version) refl, b)
      ]
