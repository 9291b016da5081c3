-- ===== src/Base/Collection.antt =====
-- A MongoDB collection as the services call it through Mongoose. The driver and the server are not
-- part of the repository: the calls are the fields of a record over a type of stores, and what the
-- services rely on is `IsLawful`, MongoDB's documented meaning of each call over the documents of
-- the collection in the order in which a query meets them.
use Prim.Native.Nat.{ℕ}
use mathlib.Core.Path.{◌≡◌, refl}
use mathlib.Core.Bool.{Bool, true, false, not}
use mathlib.Core.Option
use mathlib.Core.Option.{Option, none, some}
use mathlib.Core.List.{List, [], ◌∷◌, ◌++◌}
use native.Mathlib.Omega.{arith}
use ai_trader_api.Base.Tests.{if◌then◌else◌}
use ai_trader_api.Base.Lists.{filter, find?, any}

pub record Collection (Store Doc : Type 0) : Type 0 where
  pub find : (Doc → Bool) → Store → List Doc
  pub find_one : (Doc → Bool) → Store → Option Doc
  -- `none` is the duplicate-key error, code 11000.
  pub create : Doc → Store → Option Store
  -- `findOneAndUpdate` with `new: true`, and `save` of a document by its id.
  pub find_one_and_update : (Doc → Bool) → (Doc → Doc) → Store → Option Doc × Store
  -- The number of documents deleted, and the store.
  pub delete_one : (Doc → Bool) → Store → ℕ × Store
  pub delete_many : (Doc → Bool) → Store → Store

-- The first match, replaced.
abbrev pub update_first : {A : Type 0} → (A → Bool) → (A → A) → List A → List A
update_first p f [] = []
update_first p f (x ∷ xs) = if p x then f x ∷ xs else x ∷ update_first p f xs

-- All but the first match.
abbrev pub delete_first : {A : Type 0} → (A → Bool) → List A → List A
delete_first p [] = []
delete_first p (x ∷ xs) = if p x then xs else x ∷ delete_first p xs

-- `clash d e`: documents that a unique index does not let stand side by side.
pub record IsLawful {Store Doc : Type 0} (clash : Doc → Doc → Bool) (c : Collection Store Doc)
    : Type 0 where
  pub docs : Store → List Doc
  pub find_lem : (p : Doc → Bool) (s : Store) → c.find p s ≡ filter p (docs s)
  pub find_one_lem : (p : Doc → Bool) (s : Store) → c.find_one p s ≡ find? p (docs s)
  pub created : (d : Doc) (s s' : Store) → c.create d s ≡ some s' → docs s' ≡ docs s ++ d ∷ []
  pub create_clash : (d : Doc) (s : Store) → any (clash d) (docs s) ≡ true → c.create d s ≡ none
  pub create_free :
      (d : Doc) (s : Store)
      → any (clash d) (docs s) ≡ false
      → (s' : Store) × (c.create d s ≡ some s')
  pub updated :
      (p : Doc → Bool) (f : Doc → Doc) (s : Store)
      → (c.find_one_and_update p f s).0 ≡ Option.map f (find? p (docs s))
  pub docs-update :
      (p : Doc → Bool) (f : Doc → Doc) (s : Store)
      → docs (c.find_one_and_update p f s).1 ≡ update_first p f (docs s)
  pub deleted_count :
      (p : Doc → Bool) (s : Store) → (c.delete_one p s).0 ≡ (if any p (docs s) then 1 else 0)
  pub docs-delete_one :
      (p : Doc → Bool) (s : Store) → docs (c.delete_one p s).1 ≡ delete_first p (docs s)
  pub docs-delete_many :
      (p : Doc → Bool) (s : Store) → docs (c.delete_many p s) ≡ filter (λ d. not (p d)) (docs s)

-- `findOneAndUpdate` with `upsert` and `new`: `d` is the document that is inserted where none matches.
abbrev pub upsert :
    {Store Doc : Type 0}
    → Collection Store Doc
    → (Doc → Bool)
    → (Doc → Doc)
    → Doc
    → Store
    → Doc × Store
upsert c p f d s =
    let (updated, s') = c.find_one_and_update p f s in
    elim updated [
      | some u ↦ (u, s')
      | none ↦ elim (c.create d s') [ none ↦ (d, s') | some s'' ↦ (d, s'') ]
    ]

-- The calls on a list of documents, which meet the laws.
abbrev pub list_collection : {Doc : Type 0} → (Doc → Doc → Bool) → Collection (List Doc) Doc
list_collection clash = record {
  find = filter;
  find_one = find?;
  create = λ d s. if any (clash d) s then none else some (s ++ d ∷ []);
  find_one_and_update = λ p f s. (Option.map f (find? p s), update_first p f s);
  delete_one = λ p s. (if any p s then 1 else 0, delete_first p s);
  delete_many = λ p s. filter (λ d. not (p d)) s;
}

pub list_collection-created :
    {Doc : Type 0} (clash : Doc → Doc → Bool) (d : Doc) (s s' : List Doc)
    → (list_collection clash).create d s ≡ some s'
    → s' ≡ s ++ d ∷ []
list_collection-created clash d s s' h = ground arith

abbrev pub list_collection-IsLawful :
    {Doc : Type 0} → (clash : Doc → Doc → Bool) → IsLawful clash (list_collection clash)
list_collection-IsLawful clash = record {
  docs = λ s. s;
  find_lem = λ p s. refl;
  find_one_lem = λ p s. refl;
  created = list_collection-created clash;
  create_clash = λ d s h. rw h;
  create_free = λ d s h. (s ++ d ∷ [], rw h);
  updated = λ p f s. refl;
  docs-update = λ p f s. refl;
  deleted_count = λ p s. refl;
  docs-delete_one = λ p s. refl;
  docs-delete_many = λ p s. refl;
}
