-- ===== src/Indicators/Seeding.antt =====
-- indicators.service.ts: what a boot leaves in the collection, over the defaults `defs`.
use ai_trader_api.Base.{
  ℕ, ◌≡◌, refl, ap, ◌∙◌, inl, inr, true, false, List, [], ◌∷◌, map, filter, find?, any,
  Option-cases,
}
use mathlib.Core.Option
use ai_trader_api.Base.Text.{text_eq_sound}
use ai_trader_api.Base.Updates.{update_first-none}
use ai_trader_api.Base.Collection.{Collection, IsLawful}
use ai_trader_api.Indicators.{
  Indicator, DefaultIndicator, same_indicator, has_id, set_default, new_default, seed_one, seed,
}
use ai_trader_api.Indicators.Puts.{
  has_default, distinct_ids, is_other, untimed, AllFound, put, put_all, any-none, any-found,
  put_all-AllFound, filter-put_all, put_all-untimed,
}

module _ {S : Type 0} (indicators : Collection S Indicator)
    (law : IsLawful same_indicator indicators) where
  seed_one-put :
      (now : ℕ) (def : DefaultIndicator) (s : S)
      → law.docs (seed_one indicators now def s) ≡ put now def (law.docs s)
  unfolding seed_one
  seed_one-put now def s =
      let xs = law.docs s in
      let set = set_default now def in
      let s' = (indicators.find_one_and_update (has_id def.id) set s).1 in
      elim (Option-cases (find? (has_id def.id) xs)) [
        | inr (x, e) ↦
            rw (law.updated (has_id def.id) set s ∙ ap (Option.map set) e, seed_one)
              (rw (any-found (has_id def.id) x xs e) (law.docs-update (has_id def.id) set s))
        | inl e ↦
            let made = new_default now def in
            let unique = any-none (has_id def.id) xs e in
            let same : law.docs s' ≡ xs =
              law.docs-update (has_id def.id) set s ∙ update_first-none (has_id def.id) set xs e in
            let (s'', created) = law.create_free made s' (rw same unique) in
            rw (law.updated (has_id def.id) set s ∙ ap (Option.map set) e, seed_one, created)
              (rw (unique, law.created made s' s'' created, same) refl)
      ]

  seed-put_all :
      (now : DefaultIndicator → ℕ) (defs : List DefaultIndicator) (s : S)
      → law.docs (seed indicators now defs s) ≡ put_all now defs (law.docs s)
  unfolding seed
  seed-put_all now [] s = refl
  seed-put_all now (def ∷ defs) s =
      seed-put_all now defs (seed_one indicators (now def) def s)
      ∙ ap (put_all now defs) (seed_one-put (now def) def s)

  other_is_kept :
      (defs : List DefaultIndicator) (def : DefaultIndicator) (x : Indicator)
      → any (has_default def.id) defs ≡ true
      → has_id def.id x ≡ true
      → is_other defs x ≡ false
  other_is_kept defs def x known h = rw (text_eq_sound x.id def.id h, known) refl

  seed-other :
      (now : DefaultIndicator → ℕ) (defs : List DefaultIndicator) (s : S)
      → filter (is_other defs) (law.docs (seed indicators now defs s))
        ≡ filter (is_other defs) (law.docs s)
  seed-other now defs s =
      ap (filter (is_other defs)) (seed-put_all now defs s)
      ∙ filter-put_all now (is_other defs) defs (law.docs s) (other_is_kept defs)

  -- If no two of the defaults have one id: after a boot every default is found under its id with the
  -- fields that the program has for it, no owner and the time of its write in that boot as the last
  -- update, whatever was stored there before; a further boot changes nothing but times of last updates, and that of no
  -- document that no default has the id of; and those documents are those of before the first boot, in
  -- their order.
  pub seed-IsStable :
      (now later : DefaultIndicator → ℕ) (defs : List DefaultIndicator) (s : S)
      → distinct_ids defs ≡ true
      → let booted = seed indicators now defs s in
        let again = seed indicators later defs booted in
        AllFound now defs (law.docs booted)
        × (map untimed (law.docs again) ≡ map untimed (law.docs booted))
        × (filter (is_other defs) (law.docs again) ≡ filter (is_other defs) (law.docs booted))
        × (filter (is_other defs) (law.docs booted) ≡ filter (is_other defs) (law.docs s))
  seed-IsStable now later defs s distinct =
      let booted = seed indicators now defs s in
      let found : AllFound now defs (law.docs booted) =
        rw (seed-put_all now defs s) (put_all-AllFound now defs (law.docs s) distinct) in
      (
        found,
        ap (map untimed) (seed-put_all later defs booted)
            ∙ put_all-untimed now later defs (law.docs booted) distinct found,
        seed-other later defs booted,
        seed-other now defs s,
      )
