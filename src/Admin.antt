-- ===== src/Admin.antt =====
-- src/admin/admin.service.ts: the token spending of all users, and the cap of one. The aggregation of
-- one user's day is that of Chat/Budget, with the newest turn's time. Instants are milliseconds; the
-- texts of instants are left out. A cap that is not a number counts as missing.
pub mod Caps
pub mod Routes
mod Tests
use ai_trader_api.Base.{
  ℕ, ◌+◌, ◌-◌, String, Bool, true, false, Option, none, some, List, [], ◌∷◌, ltb, if◌then◌else◌,
  or_else, length, filter, map, min, max, str_eq, leb,
}
use ai_trader_api.Base.Dict.{Dict, lookup, insert}
use ai_trader_api.Base.Action.{Result, ok, err, Action}
use ai_trader_api.MarketSession.{day_start}
use ai_trader_api.Chat.{ChatTurn}
use ai_trader_api.Chat.Budget.{is_today}

-- What is selected of a user.
pub record User : Type 0 where
  pub id : String
  pub email : String
  pub role : String
  pub plan : String
  pub daily_token_cap_override : Option ℕ

-- A row of the aggregation by user.
pub record UsageRow : Type 0 where
  pub id : String
  pub tokens : ℕ
  pub turns : ℕ
  pub last_active_at : ℕ

-- `AdminUserUsage`.
pub record AdminUserUsage : Type 0 where
  pub user_id : String
  pub email : String
  pub role : String
  pub plan : String
  pub tokens_today : ℕ
  pub turns_today : ℕ
  pub cap : ℕ
  pub cap_override : Option ℕ
  pub remaining : ℕ
  pub last_active_at : Option ℕ

pub record Totals : Type 0 where
  pub tokens_today : ℕ
  pub turns_today : ℕ
  pub active_users_today : ℕ
  pub user_count : ℕ
  pub default_cap : ℕ

pub record AdminTurnSummary : Type 0 where
  pub turn_id : String
  pub symbol : String
  pub message : String
  pub tokens : ℕ
  pub stop_reason : Option String
  pub created_at : ℕ

-- The not-found exception.
pub data AdminError : Type 0 where
  user_not_found : AdminError

-- The queries. `set_override` is `findByIdAndUpdate` with `new: true`: the outer `none` is the
-- `CastError` of a malformed id, the inner one an id that no user has.
pub record AdminStore (S J : Type 0) : Type 0 where
  pub users : S → List User
  pub usage_by_user : (ChatTurn J → Bool) → S → List UsageRow
  pub usage_of : (ChatTurn J → Bool) → S → Option UsageRow
  pub find_newest : (ChatTurn J → Bool) → ℕ → S → List (ChatTurn J)
  pub set_override : String → Option ℕ → S → Option (Option User) × S

-- `new Map(usageRows.map((r) => [r._id, r]))`
abbrev pub index_usage : Dict UsageRow → List UsageRow → Dict UsageRow
index_usage d [] = d
index_usage d (r ∷ rows) = index_usage (insert r.id r d) rows

abbrev pub tokens_in : Option UsageRow → ℕ
tokens_in none = 0
tokens_in (some r) = r.tokens

abbrev pub turns_in : Option UsageRow → ℕ
turns_in none = 0
turns_in (some r) = r.turns

abbrev pub last_active_in : Option UsageRow → Option ℕ
last_active_in none = none
last_active_in (some r) = some r.last_active_at

-- The row of a user, of the user's id, the user and the user's usage.
abbrev pub usage_row : ℕ → String → User → Option UsageRow → AdminUserUsage
usage_row default_cap id u usage =
    let cap = or_else u.daily_token_cap_override default_cap in
    record {
      user_id = id;
      email = u.email;
      role = u.role;
      plan = u.plan;
      tokens_today = tokens_in usage;
      turns_today = turns_in usage;
      cap = cap;
      cap_override = u.daily_token_cap_override;
      remaining = cap - tokens_in usage;
      last_active_at = last_active_in usage;
    }

-- `rows.sort((a, b) => b.tokensToday - a.tokensToday)`, which is stable.
abbrev pub insert_row : AdminUserUsage → List AdminUserUsage → List AdminUserUsage
insert_row x [] = x ∷ []
insert_row x (y ∷ ys) =
    let rest = insert_row x ys in if ltb x.tokens_today y.tokens_today then y ∷ rest else x ∷ y ∷ ys

abbrev pub sort_rows : List AdminUserUsage → List AdminUserUsage
sort_rows [] = []
sort_rows (x ∷ xs) = insert_row x (sort_rows xs)

abbrev pub sum_of : (AdminUserUsage → ℕ) → List AdminUserUsage → ℕ
sum_of f [] = 0
sum_of f (x ∷ xs) = f x + sum_of f xs

module _ {S J : Type 0} (store : AdminStore S J) (default_cap : ℕ) where
  -- `usageToday`.
  pub usage_today : ℕ → S → List AdminUserUsage × Totals
  usage_today now s =
      let usage = index_usage [] (store.usage_by_user (λ t. leb (day_start now) t.created_at) s) in
      let rows =
        sort_rows (map (λ u. usage_row default_cap u.id u (lookup u.id usage)) (store.users s)) in
      (
        rows,
        record {
          tokens_today = sum_of (λ r. r.tokens_today) rows;
          turns_today = sum_of (λ r. r.turns_today) rows;
          active_users_today = length (filter (λ r. ltb 0 r.turns_today) rows);
          user_count = length rows;
          default_cap = default_cap;
        },
      )

  -- `recentTurns`; `tokens` reads `total_tokens` of the usage.
  pub recent_turns : (J → ℕ) → String → ℕ → S → List AdminTurnSummary
  recent_turns tokens user limit s =
      map
        (λ t. record {
          turn_id = t.turn_id;
          symbol = t.symbol;
          message = t.message;
          tokens = elim t.usage [ none ↦ 0 | some u ↦ tokens u ];
          stop_reason = t.stop_reason;
          created_at = t.created_at;
        })
        (store.find_newest (λ t. str_eq t.user_id user) (min (max limit 1) 100) s)

  abbrev pub found : Option (Option User) → Option User
  found none = none
  found (some u) = u

  -- `setCap`; no cap clears the override.
  pub set_cap : String → Option ℕ → ℕ → Action AdminError S AdminUserUsage
  set_cap user cap now s =
      let (updated, s') = store.set_override user cap s in
      elim (found updated) [
        | none ↦ (err user_not_found, s')
        | some u ↦ (ok (usage_row default_cap user u (store.usage_of (is_today user now) s')), s')
      ]
