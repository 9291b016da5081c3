-- ===== src/Layouts/Refinement.antt =====
-- chart-layouts.service.ts: calls through the store answer as the registers do.
use ai_trader_api.Base.{
  ℕ, ◌≡◌, refl, ◌∙◌, inl, inr, String, Option, none, some, or_else, arith, ==_iff,
}
use ai_trader_api.Base.Action.{Result}
use ai_trader_api.Layouts.{
  Conflict, LayoutView, SaveLayoutDto, LayoutStore, IsLayoutStore, is_of, blank, view_of, or_keep,
  set_layout, new_layout,
}
use ai_trader_api.Layouts.Keys.{
  is_of_refl, HasUniqueLayouts, update-HasUniqueLayouts, append-HasUniqueLayouts,
}
use ai_trader_api.Layouts.Register.{save_chart, Registers, written, register_step, step}
use ai_trader_api.Layouts.Saves.{chart_of, save-SaveOutcome}
use ai_trader_api.Layouts.Shown.{shows_updated, shows_inserted, shows_same}

or_keep-none : (a : Option String) → or_keep a none ≡ a
or_keep-none none = refl
or_keep-none (some x) = refl

module _ {S J : Type 0} (layouts : LayoutStore S J) (upper : String → String)
    (law : IsLayoutStore layouts) where
  -- The registers are what the documents show.
  abbrev pub Shows : S → Registers J → Type 0
  Shows s regs =
      HasUniqueLayouts (law.docs s) × ((u k : String) → chart_of layouts upper law s u k ≡ regs u k)

  abbrev pub Simulates :
      Result Conflict (LayoutView J) × S → Result Conflict (LayoutView J) × Registers J → Type 0
  Simulates out expected = (out.0 ≡ expected.0) × Shows out.1 expected.1

  module _ (s : S) (unique : HasUniqueLayouts (law.docs s)) where
    abbrev pub charts : Registers J
    charts = chart_of layouts upper law s

    pub save-Simulates :
        (user symbol : String) (dto : SaveLayoutDto J) (now : ℕ)
        → Simulates
            (step layouts upper (save_chart user symbol dto now) s)
            (register_step upper (save_chart user symbol dto now) charts)
    unfolding step register_step
    save-Simulates user symbol dto now =
        let key = upper symbol in
        let f = set_layout layouts upper dto now in
        let new = new_layout layouts upper user key dto now in
        elim (save-SaveOutcome layouts upper law user symbol dto now s unique) [
          | inl (d, e, z, a, b) ↦
              let version : d.version ≡ or_else dto.version 0 =
                ground (arith, ==_iff d.version (or_else dto.version 0)) in
              let result : view_of (f d) ≡ written upper dto now (view_of d) = rw version refl in
              (
                rw (e, z) (a ∙ rw result refl),
                (
                  rw b (
                      update-HasUniqueLayouts (is_of user key) f (λ x. (refl, refl)) (law.docs s)
                        unique),
                  λ u k.
                      rw (b, e, z)
                        (rw⁻¹ result
                          (shows_updated user key u k (law.docs s) f d (λ x. (refl, refl)) e)),
                ),
              )
          | inr (inl (e, z, a, b)) ↦
              let first : or_else dto.version 0 ≡ 0 =
                ground (arith, ==_iff 0 (or_else dto.version 0)) in
              let result : view_of new ≡ written upper dto now (blank key) =
                rw (first, or_keep-none dto.chart_type) refl in
              (
                rw (e, z) (a ∙ rw result refl),
                (
                  rw b (append-HasUniqueLayouts new (law.docs s) e unique),
                  λ u k.
                      rw (b, e, z)
                        (rw⁻¹ result (
                          shows_inserted user key u k (law.docs s) new
                            (is_of_refl user key new refl refl) e)),
                ),
              )
          | inr (inr (z, a, b)) ↦
              (rw z a, (rw b unique, λ u k. rw (b, z) (shows_same user key u k (law.docs s))))
        ]
