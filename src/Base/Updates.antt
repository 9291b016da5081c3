-- ===== src/Base/Updates.antt =====
-- Updates of the first matching document of a list.
use mathlib.Core.Path.{◌≡◌, refl, ap}
use mathlib.Core.Logic.{inl, inr}
use mathlib.Core.Bool.{Bool, true, false, ◌&&◌}
use mathlib.Core.Option.{none, some}
use mathlib.Core.List.{List, [], ◌∷◌, ◌++◌}
use native.Mathlib.Omega.{arith}
use ai_trader_api.Base.Tests.{Bool-cases}
use ai_trader_api.Base.Lists.{find?, any}
use ai_trader_api.Base.Collection.{update_first, delete_first}

module _ {A : Type 0} (p : A → Bool) (f : A → A) where
  pub update_first-none : (xs : List A) → find? p xs ≡ none → update_first p f xs ≡ xs
  update_first-none [] h = refl
  update_first-none (x ∷ xs) h = elim (Bool-cases (p x)) [
    | inl e ↦ absurd (cc (rw e at h))
    | inr e ↦ rw e (ap (◌∷◌ x) (update_first-none xs (rw e at h)))
  ]

  pub find?-holds : (xs : List A) (a : A) → find? p xs ≡ some a → p a ≡ true
  find?-holds [] a h = cc
  find?-holds (x ∷ xs) a h = ground (arith, find?-holds xs a)

  pub find?-update_first :
      (xs : List A) (a : A)
      → find? p xs ≡ some a
      → p (f a) ≡ true
      → find? p (update_first p f xs) ≡ some (f a)
  find?-update_first [] a h k = cc
  find?-update_first (x ∷ xs) a h k = ground (arith, find?-update_first xs a)

  -- A second update at the document of the first, which takes it back, restores the list.
  pub update_first-undo :
      (g : A → A) (xs : List A) (a : A)
      → find? p xs ≡ some a
      → p (f a) ≡ true
      → g (f a) ≡ a
      → update_first p g (update_first p f xs) ≡ xs
  update_first-undo g [] a h k back = refl
  update_first-undo g (x ∷ xs) a h k back = elim (Bool-cases (p x)) [
    | inl e ↦ let same : x ≡ a = cc (rw e at h) in rw (e, same) (rw k (ap (λ y. y ∷ xs) back))
    | inr e ↦ rw e (rw e (ap (◌∷◌ x) (update_first-undo g xs a (rw e at h) k back)))
  ]

-- A further test that the first match passes changes nothing.
module _ {A : Type 0} (p q : A → Bool) where
  pub find?-and :
      (xs : List A) (a : A) → find? p xs ≡ some a → q a ≡ true → find? (λ x. p x && q x) xs ≡ some a
  find?-and [] a h k = cc
  find?-and (x ∷ xs) a h k = ground (arith, find?-and xs a)

  pub update_first-and :
      (f : A → A) (xs : List A) (a : A)
      → find? p xs ≡ some a
      → q a ≡ true
      → update_first (λ x. p x && q x) f xs ≡ update_first p f xs
  update_first-and f [] a h k = refl
  update_first-and f (x ∷ xs) a h k = elim (Bool-cases (p x)) [
    | inl e ↦ let same : x ≡ a = cc (rw e at h) in let pass : q x ≡ true = rw same k in rw (e, pass)
    | inr e ↦ rw e (ap (◌∷◌ x) (update_first-and f xs a (rw e at h) k))
  ]

  pub find?-and-none : (xs : List A) → find? p xs ≡ none → find? (λ x. p x && q x) xs ≡ none
  find?-and-none [] h = refl
  find?-and-none (x ∷ xs) h = ground (arith, find?-and-none xs)

-- A document at the end of the list.
module _ {A : Type 0} (p : A → Bool) (y : A) where
  pub find?-append_last :
      (xs : List A) → find? p xs ≡ none → p y ≡ true → find? p (xs ++ y ∷ []) ≡ some y
  find?-append_last [] h k = rw k refl
  find?-append_last (x ∷ xs) h k = ground (arith, find?-append_last xs)

  pub find?-append_other : (xs : List A) → p y ≡ false → find? p (xs ++ y ∷ []) ≡ find? p xs
  find?-append_other [] k = rw k refl
  find?-append_other (x ∷ xs) k = ground (arith, find?-append_other xs)

-- What another query finds, after an update or a deletion at the first match of `p`.
module _ {A : Type 0} (p q : A → Bool) where
  pub find?-update_other :
      (f : A → A)
      → ((x : A) → q (f x) ≡ q x)
      → ((x : A) → p x ≡ true → q x ≡ false)
      → (xs : List A) → find? q (update_first p f xs) ≡ find? q xs
  find?-update_other f same apart [] = refl
  find?-update_other f same apart (x ∷ xs) =
      ground (arith, same x, apart x, find?-update_other f same apart xs)

  pub find?-delete_other :
      ((x : A) → p x ≡ true → q x ≡ false)
      → (xs : List A) → find? q (delete_first p xs) ≡ find? q xs
  find?-delete_other apart [] = refl
  find?-delete_other apart (x ∷ xs) = ground (arith, apart x, find?-delete_other apart xs)

  pub find?-update_none :
      (f : A → A)
      → ((x : A) → q (f x) ≡ q x)
      → (xs : List A) → find? q xs ≡ none
      → find? q (update_first p f xs) ≡ none
  find?-update_none f same [] h = refl
  find?-update_none f same (x ∷ xs) h = ground (arith, same x, find?-update_none f same xs)

  pub find?-delete_none : (xs : List A) → find? q xs ≡ none → find? q (delete_first p xs) ≡ none
  find?-delete_none [] h = refl
  find?-delete_none (x ∷ xs) h = ground (arith, find?-delete_none xs)

-- Where two queries find the same document, an update at the first leaves it to the second.
module _ {A : Type 0} (p q : A → Bool) (f : A → A) where
  pub find?-update_same :
      ((x : A) → q (f x) ≡ q x)
      → (xs : List A) (a : A) → find? p xs ≡ some a
      → find? q xs ≡ some a
      → find? q (update_first p f xs) ≡ some (f a)
  find?-update_same same [] a h k = cc
  find?-update_same same (x ∷ xs) a h k = elim (Bool-cases (p x)) [
    | inl e ↦
        let here : x ≡ a = cc (rw e at h) in rw (e, same x, here, find?-holds q f (x ∷ xs) a k) refl
    | inr e ↦ ground (arith, e, same x, find?-holds p f (x ∷ xs) a h, find?-update_same same xs a)
  ]

-- An update of a document at the end of the list.
pub update_first-append_last :
    {A : Type 0} (p : A → Bool) (f : A → A) (y : A) (xs : List A)
    → find? p xs ≡ none
    → p y ≡ true
    → update_first p f (xs ++ y ∷ []) ≡ xs ++ f y ∷ []
update_first-append_last p f y [] h k = rw k refl
update_first-append_last p f y (x ∷ xs) h k = elim (Bool-cases (p x)) [
  | inl e ↦ absurd (cc (rw e at h))
  | inr e ↦ rw e (ap (◌∷◌ x) (update_first-append_last p f y xs (rw e at h) k))
]

-- What one query finds, another finds too, or something before it.
pub find?-meets :
    {A : Type 0} (p q : A → Bool) (xs : List A) (a : A)
    → find? p xs ≡ some a
    → q a ≡ true
    → (b : A) × (find? q xs ≡ some b)
find?-meets p q [] a h k = absurd (cc h)
find?-meets p q (x ∷ xs) a h k = elim (Bool-cases (q x)) [
  | inl e ↦ (x, rw e refl)
  | inr e ↦ elim (Bool-cases (p x)) [
    | inl d ↦ absurd (cc (rw d at h))
    | inr d ↦ let (b, found) = find?-meets p q xs a (rw d at h) k in (b, rw e found)
  ]
]

-- An update that sets what another one makes of the document that is found.
pub update_first-constant :
    {A : Type 0} (p : A → Bool) (f : A → A) (a : A) (xs : List A)
    → find? p xs ≡ some a
    → update_first p (λ _. f a) xs ≡ update_first p f xs
update_first-constant p f a [] h = refl
update_first-constant p f a (x ∷ xs) h = elim (Bool-cases (p x)) [
  | inl e ↦ let same : x ≡ a = cc (rw e at h) in rw (e, same) refl
  | inr e ↦ rw e (ap (◌∷◌ x) (update_first-constant p f a xs (rw e at h)))
]

pub any-find? :
    {A : Type 0} (p : A → Bool) (xs : List A) → any p xs ≡ true → (a : A) × (find? p xs ≡ some a)
any-find? p [] h = absurd (cc h)
any-find? p (x ∷ xs) h = elim (Bool-cases (p x)) [
  | inl e ↦ (x, rw e refl)
  | inr e ↦ let (a, found) = any-find? p xs (rw e at h) in (a, rw e found)
]

-- An update that leaves a test as it is leaves it to be met.
pub any-update_first :
    {A : Type 0} (p q : A → Bool) (f : A → A)
    → ((x : A) → p x ≡ true → q (f x) ≡ q x)
    → (xs : List A) → any q (update_first p f xs) ≡ any q xs
any-update_first p q f same [] = refl
any-update_first p q f same (x ∷ xs) = ground (arith, same x, any-update_first p q f same xs)
