-- ===== src/Portfolio/Trading/Idempotency.antt =====
-- paper-trading.service.ts: what a repeated placement does.
use ai_trader_api.Base.{
  ◌≡◌, refl, ◌∙◌, ◌≢◌, inl, inr, String, Bool, true, false, Option, none, some, List, [], ◌∷◌,
  str_eq, arith, Bool-cases, find?, any, eq_iff,
}
use ai_trader_api.Base.Action.{ok}
use ai_trader_api.Base.Collection.{IsLawful}
use ai_trader_api.Portfolio.{Account, Order, Db, World, placement_result, same_order, same_key}
use ai_trader_api.Portfolio.Execution.{Env}
use ai_trader_api.Portfolio.Accounts.{owned_by}
use ai_trader_api.Portfolio.Accounts.Views.{ensure_portfolio-found}
use ai_trader_api.Portfolio.Trading.{
  PlaceOrderDto, keyed, given_key, fill_of, find_by_client_order_id, place_new, place_order,
  new_order, resolve_duplicate_key,
}

has_key : String → Option String → Bool
has_key key o = elim o [ none ↦ false | some k ↦ str_eq k key ]

has_key-same_key :
    (key : String) (o : Option String) → has_key key o ≡ true → same_key (some key) o ≡ true
unfolding has_key
has_key-same_key key none h = cc
has_key-same_key key (some k) h = ground (arith, eq_iff k key, eq_iff key k)

-- Two orders of one user under one key clash.
keyed-clash :
    {N : Type 0} (user key : String) (o x : Order N)
    → o.user_id ≡ user
    → o.client_order_id ≡ some key
    → keyed user key x ≡ true
    → same_order o x ≡ true
unfolding has_key
keyed-clash user key o x owner named h =
    let own : str_eq x.user_id user ≡ true = ground arith in
    let named' : has_key key x.client_order_id ≡ true = ground arith in
    let same = has_key-same_key key x.client_order_id named' in
    let owner' : str_eq user x.user_id ≡ true =
      ground (arith, eq_iff x.user_id user, eq_iff user x.user_id) in
    rw (owner, named, owner', same) (ground arith)

-- An order stored under a key stands in the way of a second one.
keyed-same_order :
    {N : Type 0} (user key : String) (o : Order N) (os : List (Order N)) (stored : Order N)
    → o.user_id ≡ user
    → o.client_order_id ≡ some key
    → find? (keyed user key) os ≡ some stored
    → any (same_order o) os ≡ true
keyed-same_order user key o [] stored owner named found = cc
keyed-same_order user key o (x ∷ os) stored owner named found =
    elim (Bool-cases (keyed user key x)) [
      | inl e ↦ rw (keyed-clash user key o x owner named e) refl
      | inr e ↦
          rw (keyed-same_order user key o os stored owner named (rw e at found)) (ground arith)
    ]

module _ {N P Q O T : Type 0} (db : Db N P Q O T) (upper : String → String)
    (at_gate at_fill : Env N) (lo : IsLawful same_order db.orders) (user key : String)
    (dto : PlaceOrderDto N) (keyed_by : dto.client_order_id ≡ some key) (given : key ≢ "")
    (w : World N P Q O T) (order : Order N)
    (stored : find? (keyed user key) (lo.docs w.orders) ≡ some order) where
  found : find_by_client_order_id db user key w ≡ some (placement_result order (fill_of db order w))
  unfolding find_by_client_order_id
  found = rw (lo.find_one_lem (keyed user key) w.orders ∙ stored, find_by_client_order_id) refl

  is_given : given_key dto.client_order_id ≡ some key
  is_given = rw keyed_by (ground (arith, eq_iff key ""))

  -- A request of a user with an account, under a key that an order of the user is stored with, is
  -- answered with that order and the trade of its fill, and writes nothing.
  pub repeat_places_nothing :
      (account : Account N)
      → db.accounts.find_one (owned_by user dto.exchange) w.accounts ≡ some account
      → place_order db upper at_gate at_fill user dto w
        ≡ (ok (placement_result order (fill_of db order w)), w)
  unfolding place_order
  repeat_places_nothing account owned =
      rw (ensure_portfolio-found db at_fill user dto.exchange w account owned none, is_given, found)
        refl

  -- A request that passed the first look at the key, and finds an order of the user stored with the
  -- key when it writes its own, is answered with that order, and writes nothing.
  pub lost_race_places_nothing :
      (account : Account N)
      → place_new db upper at_gate at_fill user dto account w
        ≡ (ok (placement_result order (fill_of db order w)), w)
  unfolding place_new
  lost_race_places_nothing account =
      let o = new_order db upper at_gate at_fill user dto account in
      let clash =
        lo.create_clash o w.orders
          (keyed-same_order user key o (lo.docs w.orders) order refl keyed_by stored) in
      rw (clash, place_new, is_given, resolve_duplicate_key, found) refl
