-- ===== src/Layouts/Saves.antt =====
-- chart-layouts.service.ts: the ways in which a save ends, as its answer and the documents after it.
use ai_trader_api.Base.{
  ℕ, ◌≡◌, refl, ◌∙◌, ◌⊎◌, inl, inr, String, Bool, true, false, ◌&&◌, Option, none, some, [], ◌∷◌,
  ◌++◌, ◌==◌, if◌then◌else◌, or_else, find?, arith, Bool-cases, Option-cases,
}
use mathlib.Core.Option
use ai_trader_api.Base.Action.{Result, ok, err}
use ai_trader_api.Base.Collection.{update_first}
use ai_trader_api.Base.Updates.{find?-and, find?-and-none, update_first-and}
use ai_trader_api.Layouts.{
  caught, ChartLayout, Conflict, LayoutView, SaveLayoutDto, LayoutStore, IsLayoutStore, is_of,
  blank, view_of, get, save, set_layout, new_layout,
}
use ai_trader_api.Layouts.Keys.{HasUniqueLayouts, find?-unique}

module _ {S J : Type 0} (layouts : LayoutStore S J) (upper : String → String)
    (law : IsLayoutStore layouts) where
  -- The register that the documents show.
  abbrev pub chart_of : S → String → String → Option (LayoutView J)
  chart_of s user key = Option.map view_of (find? (is_of user key) (law.docs s))

  pub get-eq :
      (user symbol : String) (s : S)
      → get layouts upper user symbol s
        ≡ or_else (chart_of s user (upper symbol)) (blank (upper symbol))
  unfolding get
  get-eq user symbol s = elim (Option-cases (find? (is_of user (upper symbol)) (law.docs s))) [
    | inl e ↦ rw (law.find_one_lem (is_of user (upper symbol)) s, e, get) refl
    | inr (d, e) ↦ rw (law.find_one_lem (is_of user (upper symbol)) s, e, get) refl
  ]

  module _ (user symbol : String) (dto : SaveLayoutDto J) (now : ℕ) (s : S) where
    abbrev pub is_expected : ChartLayout J → Bool
    is_expected d = d.version == or_else dto.version 0

    abbrev pub current : LayoutView J
    current = or_else (chart_of s user (upper symbol)) (blank (upper symbol))

    outcome : Option (ChartLayout J) → Option (Option (ChartLayout J)) × S
    outcome upsert =
        layouts.find_one_and_update (λ d. is_of user (upper symbol) d && is_expected d)
          (set_layout layouts upper dto now) upsert s

    upsert : Option (ChartLayout J)
    upsert =
        if or_else dto.version 0 == 0
        then some (new_layout layouts upper user (upper symbol) dto now)
        else none

    save_ok :
        (e : ChartLayout J)
        → (outcome upsert).0 ≡ some (some e)
        → save layouts upper user symbol dto now s ≡ (ok (view_of e), (outcome upsert).1)
    unfolding save outcome upsert
    save_ok e h = rw (h, save) refl

    save_conflict :
        caught (outcome upsert).0 ≡ none
        → law.docs (outcome upsert).1 ≡ law.docs s
        → save layouts upper user symbol dto now s
          ≡ (err (record { current_version = current.version }), (outcome upsert).1)
    unfolding save outcome upsert
    save_conflict h k = rw (h, save) (rw (get-eq user symbol (outcome upsert).1, k) refl)

    -- What a save does, in the three ways it can end.
    abbrev pub SaveOutcome : Result Conflict (LayoutView J) × S → Type 0
    SaveOutcome out =
        ((d : ChartLayout J) × (find? (is_of user (upper symbol)) (law.docs s) ≡ some d)
          × (is_expected d ≡ true)
          × (out.0 ≡ ok (view_of (set_layout layouts upper dto now d)))
          × (law.docs out.1
              ≡ update_first (is_of user (upper symbol)) (set_layout layouts upper dto now)
                  (law.docs s)))
        ⊎ ((find? (is_of user (upper symbol)) (law.docs s) ≡ none)
            × ((0 == or_else dto.version 0) ≡ true)
            × (out.0 ≡ ok (view_of (new_layout layouts upper user (upper symbol) dto now)))
            × (law.docs out.1
                ≡ law.docs s ++ new_layout layouts upper user (upper symbol) dto now ∷ []))
        ⊎ (((current.version == or_else dto.version 0) ≡ false)
            × (out.0 ≡ err (record { current_version = current.version }))
            × (law.docs out.1 ≡ law.docs s))

    absent :
        find? (is_of user (upper symbol)) (law.docs s) ≡ none
        → SaveOutcome (save layouts upper user symbol dto now s)
    unfolding outcome upsert
    absent e =
        let missing = find?-and-none (is_of user (upper symbol)) is_expected (law.docs s) e in
        elim (Bool-cases (or_else dto.version 0 == 0)) [
          | inl z ↦
              let (a, b) =
                law.inserted _ (set_layout layouts upper dto now)
                  (new_layout layouts upper user (upper symbol) dto now) s missing e in
              rw (save_ok (new_layout layouts upper user (upper symbol) dto now) (rw z a))
                (inr (inl (e, ground arith, refl, rw z b)))
          | inr nz ↦
              let (a, b) = law.missed _ (set_layout layouts upper dto now) s missing in
              rw (save_conflict (rw nz (rw a refl)) (rw nz b))
                (inr (inr (rw e (ground arith), refl, rw nz b)))
        ]

    refused :
        (d : ChartLayout J)
        → find? (λ x. is_of user (upper symbol) x && is_expected x) (law.docs s) ≡ none
        → find? (is_of user (upper symbol)) (law.docs s) ≡ some d
        → (caught (outcome upsert).0 ≡ none) × (law.docs (outcome upsert).1 ≡ law.docs s)
    unfolding outcome upsert
    refused d missing e = elim (Bool-cases (or_else dto.version 0 == 0)) [
      | inl z ↦
          let (a, b) =
            law.duplicate _ (set_layout layouts upper dto now)
              (new_layout layouts upper user (upper symbol) dto now) d s missing e in
          rw z (rw a refl, b)
      | inr nz ↦
          let (a, b) = law.missed _ (set_layout layouts upper dto now) s missing in
          rw nz (rw a refl, b)
    ]

    present :
        (d : ChartLayout J)
        → HasUniqueLayouts (law.docs s)
        → find? (is_of user (upper symbol)) (law.docs s) ≡ some d
        → SaveOutcome (save layouts upper user symbol dto now s)
    unfolding outcome upsert
    present d u e = elim (Bool-cases (is_expected d)) [
      | inl z ↦
          let (a, b) =
            law.updated _ (set_layout layouts upper dto now) upsert s d
              (find?-and (is_of user (upper symbol)) is_expected (law.docs s) d e z) in
          let once =
            update_first-and (is_of user (upper symbol)) is_expected
              (set_layout layouts upper dto now) (law.docs s) d e z in
          rw (save_ok (set_layout layouts upper dto now d) a) (inl (d, e, z, refl, b ∙ once))
      | inr nz ↦
          let missing = find?-unique user (upper symbol) is_expected (law.docs s) d u e nz in
          let (a, b) = refused d missing e in rw (save_conflict a b) (inr (inr (rw e nz, refl, b)))
    ]

    pub save-SaveOutcome :
        HasUniqueLayouts (law.docs s) → SaveOutcome (save layouts upper user symbol dto now s)
    save-SaveOutcome u = elim (Option-cases (find? (is_of user (upper symbol)) (law.docs s))) [
      | inl e ↦ absent e
      | inr (d, e) ↦ present d u e
    ]
