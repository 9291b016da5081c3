-- ===== src/Indicators/Puts.antt =====
-- indicators.service.ts: what putting the defaults into a list of documents leaves of it.
use ai_trader_api.Base.{
  ℕ, ◌≡◌, refl, ap, ◌∙◌, inl, inr, Bool, true, false, not, ◌&&◌, none, some, List, [], ◌∷◌, ◌++◌,
  map, filter, find?, any, All, arith, Bool-cases, if◌then◌else◌,
}
use ai_trader_api.Base.Text.{Text, text_eq, text_eq_refl, text_eq_sound}
use ai_trader_api.Base.Updates.{
  any-find?, find?-append_last, find?-append_other, find?-update_first,
}
use ai_trader_api.Base.Collection.{update_first}
use ai_trader_api.Indicators.{Indicator, DefaultIndicator, has_id, set_default, new_default}

abbrev pub has_default : Text → DefaultIndicator → Bool
has_default id def = text_eq def.id id

-- No two of them have one id.
abbrev pub distinct_ids : List DefaultIndicator → Bool
distinct_ids [] = true
distinct_ids (d ∷ ds) = not (any (has_default d.id) ds) && distinct_ids ds

-- A document that no default has the id of.
abbrev pub is_other : List DefaultIndicator → Indicator → Bool
is_other defs x = not (any (has_default x.id) defs)

-- A document but for the time of its last update.
abbrev pub untimed : Indicator → Indicator
untimed d = record d { updated_at = 0 }

-- The id of the default finds a document with the fields of the default, no owner, and the time at
-- which the default was written.
abbrev pub IsFound : ℕ → List Indicator → DefaultIndicator → Type 0
IsFound now xs def =
    (created : ℕ) × (find? (has_id def.id) xs
      ≡ some (record {
        id = def.id;
        owner_id = none;
        name = def.name;
        category = def.category;
        pane = def.pane;
        source = def.source;
        created_at = created;
        updated_at = now;
      }))

abbrev pub AllFound : (DefaultIndicator → ℕ) → List DefaultIndicator → List Indicator → Type 0
AllFound now defs xs = All (λ def. IsFound (now def) xs def) defs

-- A list of documents with one default put in, and with all of them.
abbrev pub put : ℕ → DefaultIndicator → List Indicator → List Indicator
put now def xs =
    if any (has_id def.id) xs
    then update_first (has_id def.id) (set_default now def) xs
    else xs ++ new_default now def ∷ []

abbrev pub put_all :
    (DefaultIndicator → ℕ) → List DefaultIndicator → List Indicator → List Indicator
put_all now [] xs = xs
put_all now (def ∷ defs) xs = put_all now defs (put (now def) def xs)

module _ (p : Indicator → Bool) where
  pub any-none : (xs : List Indicator) → find? p xs ≡ none → any p xs ≡ false
  any-none [] h = refl
  any-none (x ∷ xs) h = ground (arith, h, any-none xs)

  pub any-found : (d : Indicator) (xs : List Indicator) → find? p xs ≡ some d → any p xs ≡ true
  any-found d [] h = absurd (cc h)
  any-found d (x ∷ xs) h = ground (arith, h, any-found d xs)

  none-any : (xs : List Indicator) → any p xs ≡ false → find? p xs ≡ none
  none-any [] h = refl
  none-any (x ∷ xs) h = ground (arith, h, none-any xs)

pub put-IsFound :
    (now : ℕ) (def : DefaultIndicator) (xs : List Indicator) → IsFound now (put now def xs) def
put-IsFound now def xs =
    let own = text_eq_refl def.id in
    elim (Bool-cases (any (has_id def.id) xs)) [
      | inl e ↦
          let (d, found) = any-find? (has_id def.id) xs e in
          (
            d.created_at,
            rw e (find?-update_first (has_id def.id) (set_default now def) xs d found own),
          )
      | inr e ↦ (
        now,
        rw e (
            find?-append_last (has_id def.id) (new_default now def) xs
              (none-any (has_id def.id) xs e) own),
      )
    ]

-- Putting in a default leaves the documents that pass a test that no document with its id passes.
module _ (p : Indicator → Bool) (now : ℕ) (def : DefaultIndicator)
    (apart : (x : Indicator) → has_id def.id x ≡ true → p x ≡ false) where
  set-fails : (x : Indicator) → p (set_default now def x) ≡ false
  set-fails x = apart (set_default now def x) (text_eq_refl def.id)

  new-fails : p (new_default now def) ≡ false
  new-fails = apart (new_default now def) (text_eq_refl def.id)

  find?-update_apart :
      (xs : List Indicator)
      → find? p (update_first (has_id def.id) (set_default now def) xs) ≡ find? p xs
  find?-update_apart [] = refl
  find?-update_apart (x ∷ xs) = ground (arith, set-fails x, apart x, find?-update_apart xs)

  pub find?-put : (xs : List Indicator) → find? p (put now def xs) ≡ find? p xs
  find?-put xs = elim (Bool-cases (any (has_id def.id) xs)) [
    | inl e ↦ rw e (find?-update_apart xs)
    | inr e ↦ rw e (find?-append_other p (new_default now def) xs new-fails)
  ]

  filter-update_apart :
      (xs : List Indicator)
      → filter p (update_first (has_id def.id) (set_default now def) xs) ≡ filter p xs
  filter-update_apart [] = refl
  filter-update_apart (x ∷ xs) = ground (arith, set-fails x, apart x, filter-update_apart xs)

  filter-append_apart :
      (xs : List Indicator) → filter p (xs ++ new_default now def ∷ []) ≡ filter p xs
  filter-append_apart [] = rw new-fails refl
  filter-append_apart (x ∷ xs) = ground (arith, filter-append_apart xs)

  filter-put : (xs : List Indicator) → filter p (put now def xs) ≡ filter p xs
  filter-put xs = elim (Bool-cases (any (has_id def.id) xs)) [
    | inl e ↦ rw e (filter-update_apart xs)
    | inr e ↦ rw e (filter-append_apart xs)
  ]

-- A document with the id of one that has not the id `i`.
pub other_id :
    (def : DefaultIndicator) (x : Indicator) (i : Text)
    → text_eq def.id i ≡ false
    → has_id def.id x ≡ true
    → has_id i x ≡ false
other_id def x i other h = rw (text_eq_sound x.id def.id h) other

module _ (now : DefaultIndicator → ℕ) where
  find?-put_all :
      (i : Text) (defs : List DefaultIndicator) (xs : List Indicator)
      → any (has_default i) defs ≡ false
      → find? (has_id i) (put_all now defs xs) ≡ find? (has_id i) xs
  find?-put_all i [] xs h = refl
  find?-put_all i (def ∷ defs) xs h =
      let other : text_eq def.id i ≡ false = ground (arith, h) in
      find?-put_all i defs (put (now def) def xs) (ground (arith, h))
      ∙ find?-put (has_id i) (now def) def (λ x. other_id def x i other) xs

  pub put_all-AllFound :
      (defs : List DefaultIndicator) (xs : List Indicator)
      → distinct_ids defs ≡ true
      → AllFound now defs (put_all now defs xs)
  put_all-AllFound [] xs h = tt
  put_all-AllFound (def ∷ defs) xs h =
      let (created, found) = put-IsFound (now def) def xs in
      (
        (created, find?-put_all def.id defs (put (now def) def xs) (ground (arith, h)) ∙ found),
        put_all-AllFound defs (put (now def) def xs) (ground (arith, h)),
      )

  -- The defaults of a longer list have more ids.
  pub filter-put_all :
      (p : Indicator → Bool) (defs : List DefaultIndicator) (xs : List Indicator)
      → ((def : DefaultIndicator) (x : Indicator)
          → any (has_default def.id) defs ≡ true
          → has_id def.id x ≡ true
          → p x ≡ false)
      → filter p (put_all now defs xs) ≡ filter p xs
  filter-put_all p [] xs h = refl
  filter-put_all p (def ∷ defs) xs h =
      filter-put_all p defs (put (now def) def xs) (λ d x m. h d x (ground (arith, m)))
      ∙ filter-put p (now def) def (λ x. h def x (rw (text_eq_refl def.id) refl)) xs

-- Putting a default in where it is found changes only the time of the update.
update-untimed :
    (p : Indicator → Bool) (f : Indicator → Indicator) (d : Indicator) (xs : List Indicator)
    → find? p xs ≡ some d
    → untimed (f d) ≡ untimed d
    → map untimed (update_first p f xs) ≡ map untimed xs
update-untimed p f d [] h same = refl
update-untimed p f d (x ∷ xs) h same = elim (Bool-cases (p x)) [
  | inl e ↦ let here : x ≡ d = cc (rw e at h) in rw (e, here) (ap (λ y. y ∷ map untimed xs) same)
  | inr e ↦ rw e (ap (◌∷◌ (untimed x)) (update-untimed p f d xs (rw e at h) same))
]

put-untimed :
    (before now : ℕ) (def : DefaultIndicator) (xs : List Indicator)
    → IsFound before xs def
    → map untimed (put now def xs) ≡ map untimed xs
put-untimed before now def xs (created, found) =
    rw (any-found (has_id def.id) _ xs found)
      (update-untimed (has_id def.id) (set_default now def) _ xs found refl)

put-AllFound :
    (before : DefaultIndicator → ℕ) (now : ℕ) (def : DefaultIndicator)
    (defs : List DefaultIndicator) (xs : List Indicator)
    → any (has_default def.id) defs ≡ false
    → AllFound before defs xs
    → AllFound before defs (put now def xs)
put-AllFound before now def [] xs h found = tt
put-AllFound before now def (e ∷ defs) xs h ((created, found), rest) =
    let other : text_eq def.id e.id ≡ false =
      ground (arith, h, text_eq_sound def.id e.id, text_eq_refl e.id) in
    (
      (created, find?-put (has_id e.id) now def (λ x. other_id def x e.id other) xs ∙ found),
      put-AllFound before now def defs xs (ground (arith, h)) rest,
    )

pub put_all-untimed :
    (before now : DefaultIndicator → ℕ) (defs : List DefaultIndicator) (xs : List Indicator)
    → distinct_ids defs ≡ true
    → AllFound before defs xs
    → map untimed (put_all now defs xs) ≡ map untimed xs
put_all-untimed before now [] xs h found = refl
put_all-untimed before now (def ∷ defs) xs h (found, rest) =
    put_all-untimed before now defs (put (now def) def xs) (ground (arith, h))
      (put-AllFound before (now def) def defs xs (ground (arith, h)) rest)
    ∙ put-untimed (before def) (now def) def xs found
