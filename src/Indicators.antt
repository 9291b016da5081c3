-- ===== src/Indicators.antt =====
-- src/indicators/indicators.service.ts and schemas/indicator.schema.ts: Pine indicators, the defaults
-- without an owner and those of users. Ids are texts; `lower` stands for `toLowerCase`, `suffix` for the
-- first eight characters of a random UUID, `sorted` for the sort by category and name.
pub mod Defaults
pub mod Ownership
mod Puts
pub mod Seeding
mod Tests
use ai_trader_api.Base.{
  ℕ, zero, suc, String, Bool, true, false, not, ◌&&◌, ◌||◌, Option, none, some, List, [], ◌∷◌, ◌++◌,
  map, leb, ◌==◌, str_eq, if◌then◌else◌, take, reverse, is_some, ⊤,
}
use ai_trader_api.Base.Text.{Text, units, trim, text_eq, is_empty}
use ai_trader_api.Base.Action.{Result, ok, err, Action}
use ai_trader_api.Base.Collection.{Collection}

-- `IndicatorPane`.
pub data IndicatorPane : Type 0 where
  main_pane sub_pane volume_pane : IndicatorPane

pub record Indicator : Type 0 where
  pub id : Text
  pub owner_id : Option String
  pub name : Text
  pub category : String
  pub pane : IndicatorPane
  pub source : String
  pub created_at : ℕ
  pub updated_at : ℕ

-- `DefaultIndicator`, an entry of the table of the seed.
pub record DefaultIndicator : Type 0 where
  pub id : Text
  pub name : Text
  pub category : String
  pub pane : IndicatorPane
  pub source : String

pub record IndicatorView : Type 0 where
  pub id : Text
  pub owner_id : Option String
  pub name : Text
  pub category : String
  pub pane : IndicatorPane
  pub source : String

-- `toView`.
abbrev to_view : Indicator → IndicatorView
to_view d = record {
  id = d.id;
  owner_id = d.owner_id;
  name = d.name;
  category = d.category;
  pane = d.pane;
  source = d.source;
}

pub record IndicatorDto : Type 0 where
  pub name : Text
  pub category : String
  pub pane : IndicatorPane
  pub source : String

-- The unique index.
abbrev pub same_indicator : Indicator → Indicator → Bool
same_indicator d e = text_eq e.id d.id

pub data IndicatorError : Type 0 where
  forbidden not_found duplicate_id : IndicatorError

-- a-z and 0-9.
abbrev is_slug_char : ℕ → Bool
is_slug_char c = leb 97 c && leb c 122 || leb 48 c && leb c 57

-- `replace(/[^a-z0-9]+/g, '-')`, inside such a run or not.
abbrev pub dashed : Bool → Text → Text
dashed in_run [] = []
dashed in_run (c ∷ s) = elim (is_slug_char c) [
  | true ↦ c ∷ dashed false s
  | false ↦ elim in_run [ true ↦ dashed true s | false ↦ 45 ∷ dashed true s ]
]

abbrev drop_dashes : Text → Text
drop_dashes [] = []
drop_dashes (c ∷ s) = let rest = drop_dashes s in if c == 45 then rest else c ∷ s

-- `replace(/^-+|-+$/g, '')`
abbrev pub strip_dashes : Text → Text
strip_dashes s = reverse (drop_dashes (reverse (drop_dashes s)))

-- `slugify`.
pub slugify : (Text → Text) → Text → Text → Text
unfolding trim
slugify lower suffix name =
    let base = take 40 (strip_dashes (dashed false (trim (lower name)))) in
    units "custom-"
    ++ ((if is_empty base then units "indicator" else base) ++ (units "-" ++ suffix))

abbrev pub is_owned_by : String → Indicator → Bool
is_owned_by user d = elim d.owner_id [ none ↦ false | some owner ↦ str_eq owner user ]

abbrev pub is_default : Indicator → Bool
is_default d = not (is_some d.owner_id)

abbrev pub has_id : Text → Indicator → Bool
has_id id d = text_eq d.id id

-- `{ id, ownerId: userId }`
abbrev pub is_own : String → Text → Indicator → Bool
is_own user id d = has_id id d && is_owned_by user d

-- `$set` of an update, and the time of it that `timestamps: true` sets.
abbrev pub set_dto : ℕ → IndicatorDto → Indicator → Indicator
set_dto now dto d = record d {
  name = dto.name;
  category = dto.category;
  pane = dto.pane;
  source = dto.source;
  updated_at = now;
}

abbrev pub custom : Text → String → ℕ → IndicatorDto → Indicator
custom id user now dto = record {
  id = id;
  owner_id = some user;
  name = dto.name;
  category = dto.category;
  pane = dto.pane;
  source = dto.source;
  created_at = now;
  updated_at = now;
}

-- `$set` of the seed, at a document that is there, and the document it makes where none is.
abbrev pub set_default : ℕ → DefaultIndicator → Indicator → Indicator
set_default now def d = record d {
  id = def.id;
  owner_id = none;
  name = def.name;
  category = def.category;
  pane = def.pane;
  source = def.source;
  updated_at = now;
}

abbrev pub new_default : ℕ → DefaultIndicator → Indicator
new_default now def = record {
  id = def.id;
  owner_id = none;
  name = def.name;
  category = def.category;
  pane = def.pane;
  source = def.source;
  created_at = now;
  updated_at = now;
}

module _ {S : Type 0} (indicators : Collection S Indicator) where
  -- `updateOne` of one default with `upsert`: an update, and an insertion where nothing matches.
  pub seed_one : ℕ → DefaultIndicator → S → S
  seed_one now def s =
      let (updated, s') = indicators.find_one_and_update (has_id def.id) (set_default now def) s in
      elim updated [
        | some d ↦ s'
        | none ↦ elim (indicators.create (new_default now def) s') [ none ↦ s' | some s'' ↦ s'' ]
      ]

  -- `onModuleInit`, over the defaults of the seed, each of which is written at a time of its own.
  pub seed : (DefaultIndicator → ℕ) → List DefaultIndicator → S → S
  seed now [] s = s
  seed now (def ∷ defs) s = seed now defs (seed_one (now def) def s)

  -- `listAll`.
  pub list_all : (List Indicator → List Indicator) → String → S → List IndicatorView
  list_all sorted user s =
      map to_view (sorted (indicators.find (λ d. is_default d || is_owned_by user d) s))

  -- `create`.
  pub create :
      (Text → Text) → Text → ℕ → String → IndicatorDto → Action IndicatorError S IndicatorView
  create lower suffix now user dto s =
      let doc = custom (slugify lower suffix dto.name) user now dto in
      elim (indicators.create doc s) [
        | none ↦ (err duplicate_id, s)
        | some s' ↦ (ok (to_view doc), s')
      ]

  -- `notFoundOrForbidden`.
  pub not_found_or_forbidden : Text → S → IndicatorError
  not_found_or_forbidden id s =
      if is_some (indicators.find_one (has_id id) s) then forbidden else not_found

  -- `update`.
  pub update : ℕ → String → Text → IndicatorDto → Action IndicatorError S IndicatorView
  update now user id dto s =
      let (updated, s') = indicators.find_one_and_update (is_own user id) (set_dto now dto) s in
      elim updated [
        | some d ↦ (ok (to_view d), s')
        | none ↦ (err (not_found_or_forbidden id s'), s')
      ]

  -- `remove`.
  pub remove : String → Text → Action IndicatorError S ⊤
  remove user id s =
      let (deleted, s') = indicators.delete_one (is_own user id) s in
      if deleted == 0 then (err (not_found_or_forbidden id s'), s') else (ok tt, s')
