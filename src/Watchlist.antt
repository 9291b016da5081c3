-- ===== src/Watchlist.antt =====
-- src/watchlist/watchlist.service.ts, schemas/watchlist-item.schema.ts and src/common/symbol.ts. Symbols
-- and exchanges are texts, `upper` is `toUpperCase`; instants are milliseconds. The query of the count
-- and the insertion are two calls of the driver.
pub mod Limit
mod Tests
use ai_trader_api.Base.{
  ℕ, String, Bool, true, false, ◌&&◌, ◌||◌, Option, none, some, List, [], ◌∷◌, ltb, leb, ◌==◌,
  str_eq, if◌then◌else◌, length, any,
}
use ai_trader_api.Base.Text.{Text, units, trim, text_eq}
use ai_trader_api.Base.Action.{Result, ok, err, Action}
use ai_trader_api.Base.Collection.{Collection}

-- `WatchlistItem`.
pub record WatchlistItem : Type 0 where
  pub user_id : String
  pub symbol : Text
  pub exchange : Text
  pub created_at : ℕ

-- The unique index.
abbrev pub same_item : WatchlistItem → WatchlistItem → Bool
same_item d e =
    str_eq e.user_id d.user_id && (text_eq e.symbol d.symbol && text_eq e.exchange d.exchange)

-- `MAX_WATCHLIST_SIZE`.
abbrev pub max_watchlist_size : ℕ
max_watchlist_size = 15

-- The exceptions.
pub data WatchlistError : Type 0 where
  invalid_symbol watchlist_full already_there : WatchlistError

-- A character of `SYMBOL_RE`: A-Z, 0-9, and ^ & : . ! space -.
abbrev pub is_symbol_char : ℕ → Bool
is_symbol_char c =
    leb 65 c && leb c 90
    || leb 48 c && leb c 57
    || c == 94
    || c == 38
    || c == 58
    || c == 46
    || c == 33
    || c == 32
    || c == 45

abbrev pub all : (ℕ → Bool) → Text → Bool
all p [] = true
all p (c ∷ s) = p c && all p s

-- `SYMBOL_RE.test`.
unfoldable pub is_symbol : Text → Bool
is_symbol s = leb 1 (length s) && leb (length s) 40 && all is_symbol_char s

-- `sort({ createdAt: 1 })`.
abbrev pub insert_item : WatchlistItem → List WatchlistItem → List WatchlistItem
insert_item x [] = x ∷ []
insert_item x (y ∷ ys) =
    let rest = insert_item x ys in if ltb y.created_at x.created_at then y ∷ rest else x ∷ y ∷ ys

abbrev pub sort_items : List WatchlistItem → List WatchlistItem
sort_items [] = []
sort_items (x ∷ xs) = insert_item x (sort_items xs)

abbrev pub is_users : String → WatchlistItem → Bool
is_users user d = str_eq d.user_id user

module _ {S : Type 0} (items : Collection S WatchlistItem) (upper : Text → Text) where
  -- `list`.
  pub list : String → S → List WatchlistItem
  list user s = sort_items (items.find (is_users user) s)

  -- `countDocuments({ userId })`.
  abbrev pub count : String → S → ℕ
  count user s = length (items.find (is_users user) s)

  -- `symbol.trim().toUpperCase()`.
  abbrev pub normal : Text → Text
  normal s = upper (trim s)

  -- The insertion, and the check in front of it, of `add`.
  pub insert_new : WatchlistItem → Action WatchlistError S WatchlistItem
  insert_new d s = elim (items.create d s) [ none ↦ (err already_there, s) | some s' ↦ (ok d, s') ]

  pub check_add : String → Text → S → Option WatchlistError
  check_add user sym s =
      if is_symbol sym
      then if leb max_watchlist_size (count user s) then some watchlist_full else none
      else some invalid_symbol

  -- `add`.
  pub add : String → Text → Text → ℕ → Action WatchlistError S WatchlistItem
  add user symbol exchange now s = elim (check_add user (normal symbol) s) [
    | some e ↦ (err e, s)
    | none ↦
        insert_new
          (record {
            user_id = user;
            symbol = normal symbol;
            exchange = normal exchange;
            created_at = now;
          })
          s
  ]

  -- `remove`.
  pub remove : String → Text → Text → S → Bool × S
  remove user symbol exchange s =
      let (deleted, s') =
        items.delete_one
          (λ d.
            str_eq d.user_id user
            && (text_eq d.symbol (normal symbol) && text_eq d.exchange (normal exchange)))
          s in
      (ltb 0 deleted, s')

  -- `compiledUnion`: the pairs of all items, each once.
  abbrev pub add_pair : Text × Text → List (Text × Text) → List (Text × Text)
  add_pair p ps =
      if any (λ (q : Text × Text). text_eq q.0 p.0 && text_eq q.1 p.1) ps then ps else p ∷ ps

  abbrev pub pairs_of : List WatchlistItem → List (Text × Text)
  pairs_of [] = []
  pairs_of (d ∷ ds) = add_pair (d.symbol, d.exchange) (pairs_of ds)

  pub compiled_union : S → List (Text × Text)
  compiled_union s = pairs_of (items.find (λ d. true) s)
