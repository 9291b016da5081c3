-- ===== src/Watchlist/Limit.antt =====
-- watchlist.service.ts: the size of a watchlist.
use ai_trader_api.Base.{
  subst, ℕ, ◌≡◌, ◌+◌, ◌≤◌, ◌<◌, inl, inr, String, Bool, none, List, [], ◌∷◌, ◌++◌, leb, filter,
  length, if◌then◌else◌, arith, Bool-cases, Option-cases, eq_iff,
}
use ai_trader_api.Base.Text.{Text}
use ai_trader_api.Base.Collection.{Collection, IsLawful, delete_first}
use ai_trader_api.Watchlist.{
  normal, WatchlistItem, same_item, max_watchlist_size, is_users, count, insert_new, check_add, add,
  remove,
}

-- The calls that change a watchlist.
pub data Call : Type 0 where
  add_call : (user : String) (symbol exchange : Text) (now : ℕ) → Call
  remove_call : (user : String) (symbol exchange : Text) → Call

length-filter-last :
    {A : Type 0} (p : A → Bool) (xs : List A) (y : A)
    → length (filter p (xs ++ y ∷ [])) ≡ length (filter p xs) + (if p y then 1 else 0)
length-filter-last p [] y = ground arith
length-filter-last p (x ∷ xs) y = ground (arith, length-filter-last p xs y)

length-filter-delete :
    {A : Type 0} (p q : A → Bool) (xs : List A)
    → length (filter p (delete_first q xs)) ≤ length (filter p xs)
length-filter-delete p q [] = omega arith
length-filter-delete p q (x ∷ xs) = ground (arith, length-filter-delete p q xs)

module _ {S : Type 0} (items : Collection S WatchlistItem) (upper : Text → Text) where
  pub perform : Call → S → S
  perform (add_call user symbol exchange now) s = (add items upper user symbol exchange now s).1
  perform (remove_call user symbol exchange) s = (remove items upper user symbol exchange s).1

  pub run : List Call → S → S
  run [] s = s
  run (c ∷ cs) s = run cs (perform c s)

  module _ (law : IsLawful same_item items) where
    abbrev pub AllWithinLimit : S → Type 0
    AllWithinLimit s =
        (user : String) → length (filter (is_users user) (law.docs s)) ≤ max_watchlist_size

    one_more :
        (d : WatchlistItem) (s : S) (user : String)
        → length (filter (is_users d.user_id) (law.docs s)) < max_watchlist_size
        → length (filter (is_users user) (law.docs s)) ≤ max_watchlist_size
        → length (filter (is_users user) (law.docs s)) + (if is_users user d then 1 else 0)
          ≤ max_watchlist_size
    one_more d s user room h = elim (Bool-cases (is_users user d)) [
      | inl e ↦
          let same : d.user_id ≡ user = ground (arith, eq_iff d.user_id user) in
          let room' : length (filter (is_users user) (law.docs s)) < max_watchlist_size =
            subst (λ u. length (filter (is_users u) (law.docs s)) < max_watchlist_size) same room in
          rw e (omega (arith, room'))
      | inr e ↦ rw e (omega (arith, h))
    ]

    insert-AllWithinLimit :
        (d : WatchlistItem) (s : S)
        → length (filter (is_users d.user_id) (law.docs s)) < max_watchlist_size
        → AllWithinLimit s
        → AllWithinLimit (insert_new items upper d s).1
    unfolding insert_new
    insert-AllWithinLimit d s room h user = elim (Option-cases (items.create d s)) [
      | inl e ↦ rw (e, insert_new) (h user)
      | inr (s', e) ↦
          rw (e, insert_new)
            (rw (law.created d s s' e, length-filter-last (is_users user) (law.docs s) d)
              (one_more d s user room (h user)))
    ]

    check-has_room :
        (user : String) (sym : Text) (s : S)
        → check_add items upper user sym s ≡ none
        → length (filter (is_users user) (law.docs s)) < max_watchlist_size
    unfolding check_add
    check-has_room user sym s h =
        rw⁻¹ (law.find_lem (is_users user) s)
          (ground (arith, leb max_watchlist_size (count items upper user s)))

    perform-AllWithinLimit : (c : Call) (s : S) → AllWithinLimit s → AllWithinLimit (perform c s)
    unfolding perform add remove
    perform-AllWithinLimit (remove_call user symbol exchange) s h u =
        rw (law.docs-delete_one _ s)
          (omega (arith, length-filter-delete (is_users u) _ (law.docs s), h u))
    perform-AllWithinLimit (add_call user symbol exchange now) s h u =
        elim (Option-cases (check_add items upper user (normal items upper symbol) s)) [
          | inr (e, c) ↦ rw (c, add, perform) (h u)
          | inl c ↦ rw (c, add, perform) (insert-AllWithinLimit _ s (check-has_room user _ s c) h u)
        ]

    -- However users add and remove symbols, one call after the other, no watchlist outgrows the limit.
    pub run-AllWithinLimit : (cs : List Call) (s : S) → AllWithinLimit s → AllWithinLimit (run cs s)
    unfolding run
    run-AllWithinLimit [] s h = h
    run-AllWithinLimit (c ∷ cs) s h =
        run-AllWithinLimit cs (perform c s) (perform-AllWithinLimit c s h)
