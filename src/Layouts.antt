-- ===== src/Layouts.antt =====
-- src/chart-layouts: the saved charts (chart-layouts.service.ts, schemas/chart-layout.schema.ts). A
-- JSON object, which the service stores as it is, is the type `J`. A field with a default in the
-- schema is always there; `upper` stands for `toUpperCase`, `now` for the clock.
pub mod Keys
pub mod Register
pub mod Saves
pub mod Conflicts
pub mod Shown
pub mod Refinement
mod Tests
use ai_trader_api.Base.{
  ℕ, ◌≡◌, ◌+◌, String, Bool, true, false, ◌&&◌, Option, none, some, List, [], ◌∷◌, ◌++◌, ◌==◌,
  str_eq, if◌then◌else◌, or_else, find?,
}
use ai_trader_api.Base.Action.{Result, ok, err, Action}
use ai_trader_api.Base.Collection.{update_first, delete_first}

pub data Pane : Type 0 where
  main sub : Pane

module _ (J : Type 0) where
  -- `AttachedIndicator`; `visibility` are its two interval names.
  pub record AttachedIndicator : Type 0 where
    pub id : String
    pub source : String
    pub label : String
    pub pane : Pane
    pub params : Option J
    pub style : Option J
    pub visibility : Option (Option String × Option String)

  pub record ChartLayout : Type 0 where
    pub user_id : String
    pub symbol : String
    pub exchange : String
    pub drawings : List J
    pub indicators : List AttachedIndicator
    pub chart_type : Option String
    pub version : ℕ
    pub updated_at : Option ℕ

  pub record SaveLayoutDto : Type 0 where
    pub exchange : String
    pub drawings : List J
    pub indicators : List AttachedIndicator
    pub chart_type : Option String
    pub version : Option ℕ

  pub record LayoutView : Type 0 where
    pub symbol : String
    pub exchange : String
    pub drawings : List J
    pub indicators : List AttachedIndicator
    pub chart_type : Option String
    pub version : ℕ
    pub updated_at : Option ℕ

-- The conflict exception.
pub record Conflict : Type 0 where
  pub current_version : ℕ

-- `a ?? b` where both may be missing.
abbrev pub or_keep : Option String → Option String → Option String
or_keep none old = old
or_keep (some a) old = some a

-- The queries of the collection. `find_one_and_update p f d` updates the first match, answers the
-- document as it is then, and inserts and answers `d` where nothing matches and `d` is there; the
-- outer `none` is the duplicate-key error, code 11000.
pub record LayoutStore (S J : Type 0) : Type 0 where
  pub find_one : (ChartLayout J → Bool) → S → Option (ChartLayout J)
  pub find_one_and_update :
      (ChartLayout J → Bool)
      → (ChartLayout J → ChartLayout J)
      → Option (ChartLayout J)
      → S
      → Option (Option (ChartLayout J)) × S
  pub delete_one : (ChartLayout J → Bool) → S → S

module _ {J : Type 0} where
  abbrev pub is_of : String → String → ChartLayout J → Bool
  is_of user symbol d = str_eq d.user_id user && str_eq d.symbol symbol

  -- The unique index.
  abbrev pub same_layout : ChartLayout J → ChartLayout J → Bool
  same_layout d e = is_of d.user_id d.symbol e

  -- `blank`.
  abbrev pub blank : String → LayoutView J
  blank symbol = record {
    symbol = symbol;
    exchange = "NSE";
    drawings = [];
    indicators = [];
    chart_type = none;
    version = 0;
    updated_at = none;
  }

  abbrev pub view_of : ChartLayout J → LayoutView J
  view_of d = record {
    symbol = d.symbol;
    exchange = d.exchange;
    drawings = d.drawings;
    indicators = d.indicators;
    chart_type = d.chart_type;
    version = d.version;
    updated_at = d.updated_at;
  }

  -- `.catch` of the duplicate-key error.
  abbrev pub caught : Option (Option (ChartLayout J)) → Option (ChartLayout J)
  caught none = none
  caught (some updated) = updated

-- What the service relies on, of the documents in the order in which a query meets them.
pub record IsLayoutStore {S J : Type 0} (c : LayoutStore S J) : Type 0 where
  pub docs : S → List (ChartLayout J)
  pub find_one_lem : (p : ChartLayout J → Bool) (s : S) → c.find_one p s ≡ find? p (docs s)
  pub updated :
      (p : ChartLayout J → Bool) (f : ChartLayout J → ChartLayout J) (d : Option (ChartLayout J))
      (s : S) (e : ChartLayout J)
      → find? p (docs s) ≡ some e
      → let (answer, s') = c.find_one_and_update p f d s in
        (answer ≡ some (some (f e))) × (docs s' ≡ update_first p f (docs s))
  pub missed :
      (p : ChartLayout J → Bool) (f : ChartLayout J → ChartLayout J) (s : S)
      → find? p (docs s) ≡ none
      → let (answer, s') = c.find_one_and_update p f none s in
        (answer ≡ some none) × (docs s' ≡ docs s)
  pub inserted :
      (p : ChartLayout J → Bool) (f : ChartLayout J → ChartLayout J) (d : ChartLayout J) (s : S)
      → find? p (docs s) ≡ none
      → find? (same_layout d) (docs s) ≡ none
      → let (answer, s') = c.find_one_and_update p f (some d) s in
        (answer ≡ some (some d)) × (docs s' ≡ docs s ++ d ∷ [])
  pub duplicate :
      (p : ChartLayout J → Bool) (f : ChartLayout J → ChartLayout J) (d e : ChartLayout J) (s : S)
      → find? p (docs s) ≡ none
      → find? (same_layout d) (docs s) ≡ some e
      → let (answer, s') = c.find_one_and_update p f (some d) s in
        (answer ≡ none) × (docs s' ≡ docs s)
  pub docs-delete_one :
      (p : ChartLayout J → Bool) (s : S) → docs (c.delete_one p s) ≡ delete_first p (docs s)

module _ {S J : Type 0} (layouts : LayoutStore S J) (upper : String → String) where
  -- `get`.
  pub get : String → String → S → LayoutView J
  get user symbol s = elim (layouts.find_one (is_of user (upper symbol)) s) [
    | none ↦ blank (upper symbol)
    | some doc ↦ view_of doc
  ]

  -- `$set` of `save`; a field that is undefined is left out of an update.
  abbrev pub set_layout : SaveLayoutDto J → ℕ → ChartLayout J → ChartLayout J
  set_layout dto now d = record d {
    exchange = upper dto.exchange;
    drawings = dto.drawings;
    indicators = dto.indicators;
    chart_type = or_keep dto.chart_type d.chart_type;
    version = or_else dto.version 0 + 1;
    updated_at = some now;
  }

  -- The document that an upsert inserts.
  abbrev pub new_layout : String → String → SaveLayoutDto J → ℕ → ChartLayout J
  new_layout user key dto now = record {
    user_id = user;
    symbol = key;
    exchange = upper dto.exchange;
    drawings = dto.drawings;
    indicators = dto.indicators;
    chart_type = dto.chart_type;
    version = or_else dto.version 0 + 1;
    updated_at = some now;
  }

  -- `save`.
  pub save : String → String → SaveLayoutDto J → ℕ → Action Conflict S (LayoutView J)
  save user symbol dto now s =
      let expected = or_else dto.version 0 in
      let (answer, s') =
        layouts.find_one_and_update (λ d. is_of user (upper symbol) d && d.version == expected)
          (set_layout dto now)
          (if expected == 0 then some (new_layout user (upper symbol) dto now) else none) s in
      elim (caught answer) [
        | some updated ↦ (ok (view_of updated), s')
        | none ↦ (err (record { current_version = (get user symbol s').version }), s')
      ]

  -- `clear`.
  pub clear : String → String → S → LayoutView J × S
  clear user symbol s = (blank (upper symbol), layouts.delete_one (is_of user (upper symbol)) s)
