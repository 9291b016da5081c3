-- ===== src/Admin/Tests.antt =====
-- Runs of the admin service on a store of one user and a list of turns.
use ai_trader_api.Base.{
  ℕ, ◌≡◌, refl, sym, subst, ◌+◌, Bool, true, false, Option, none, some, List, [], ◌∷◌, length,
  filter, str_eq, or_else,
}
use ai_trader_api.MarketSession.{day_start}
use ai_trader_api.Base.Action.{ok, err}
use ai_trader_api.Chat.{ChatTurn}
use ai_trader_api.Chat.Budget.{BudgetReads, spent_today}
use ai_trader_api.Admin.{
  User, UsageRow, AdminStore, usage_row, set_cap, usage_today, user_not_found,
}
use ai_trader_api.Admin.Caps.{IsShared, pair_of, set_cap-spent_today}

abbrev Stored : Type 0
Stored = User × List (ChatTurn ℕ)

abbrev tokens : List (ChatTurn ℕ) → ℕ
tokens [] = 0
tokens (t ∷ ts) = or_else t.usage 0 + tokens ts

abbrev usage_in : List (ChatTurn ℕ) → Option UsageRow
usage_in [] = none
usage_in (t ∷ ts) = some (record {
  id = t.user_id;
  tokens = tokens (t ∷ ts);
  turns = length (t ∷ ts);
  last_active_at = t.created_at;
})

abbrev rows : Option UsageRow → List UsageRow
rows none = []
rows (some r) = r ∷ []

abbrev override_of : Bool → User → Option (Option ℕ)
override_of true u = some u.daily_token_cap_override
override_of false u = none

abbrev overridden : Bool → Option ℕ → Stored → Option (Option User) × Stored
overridden true cap (u, ts) = (
  some (some (record u { daily_token_cap_override = cap })),
  (record u { daily_token_cap_override = cap }, ts),
)
overridden false cap (u, ts) = (some none, (u, ts))

abbrev store : AdminStore Stored ℕ
store = record {
  users = λ (u, ts). u ∷ [];
  usage_by_user = λ p (u, ts). rows (usage_in (filter p ts));
  usage_of = λ p (u, ts). usage_in (filter p ts);
  find_newest = λ p limit (u, ts). filter p ts;
  set_override = λ user cap (u, ts). overridden (str_eq user u.id) cap (u, ts);
}

abbrev reads : BudgetReads Stored ℕ
reads = record {
  spent = λ p (u, ts). some (pair_of (usage_in (filter p ts)));
  override = λ user (u, ts). override_of (str_eq user u.id) u;
}

read_back :
    (here : Bool) (cap : Option ℕ) (u v : User) (ts : List (ChatTurn ℕ))
    → (overridden here cap (u, ts)).0 ≡ some (some v)
    → override_of here (overridden here cap (u, ts)).1.0 ≡ some v.daily_token_cap_override
read_back true cap u v ts e = cc
read_back false cap u v ts e = cc

abbrev alice : User
alice = record {
  id = "u";
  email = "u@x.in";
  role = "user";
  plan = "free";
  daily_token_cap_override = none;
}

abbrev turn : ChatTurn ℕ
turn = record {
  turn_id = "t0";
  session_id = "s0";
  user_id = "u";
  symbol = "TCS";
  exchange = "NSE";
  message = "";
  answer = "";
  events = [];
  usage = some 300;
  stop_reason = none;
  created_at = 99000000;
  updated_at = 99000000;
}

id_kept :
    (here : Bool) (cap : Option ℕ) (u : User) (ts : List (ChatTurn ℕ))
    → (overridden here cap (u, ts)).1.0.id ≡ u.id
id_kept true cap u ts = refl
id_kept false cap u ts = refl

reads-IsShared : IsShared store reads
reads-IsShared = record {
  same_usage = λ p (u, ts). refl;
  override_read = λ user cap (u, ts) v e.
      subst
        (λ i.
          override_of (str_eq user i) (overridden (str_eq user u.id) cap (u, ts)).1.0
          ≡ some v.daily_token_cap_override)
        (sym (id_kept (str_eq user u.id) cap u ts)) (read_back (str_eq user u.id) cap u v ts e);
}

abbrev capped : User
capped = record alice { daily_token_cap_override = some 1000 }

set_cap-spent_today_example :
    let row = usage_row 400000 "u" capped (usage_in (turn ∷ [])) in
    ((set_cap store 400000 "u" (some 1000) 100000000 (alice, turn ∷ [])).0 ≡ ok row)
    × (spent_today reads 400000 "u" 100000000
          (set_cap store 400000 "u" (some 1000) 100000000 (alice, turn ∷ [])).1
        ≡ some (record {
          tokens = row.tokens_today;
          turns = row.turns_today;
          cap = row.cap;
          remaining = row.remaining;
        }))
unfolding day_start
set_cap-spent_today_example =
    set_cap-spent_today store reads reads-IsShared 400000 "u" (some 1000) 100000000
      (alice, turn ∷ []) capped refl

unknown_user_run :
    set_cap store 400000 "v" none 100000000 (alice, turn ∷ [])
    ≡ (err user_not_found, (alice, turn ∷ []))
unfolding set_cap
unknown_user_run = refl

totals_run : (usage_today store 400000 100000000 (alice, turn ∷ [])).1 ≡ record {
  tokens_today = 300;
  turns_today = 1;
  active_users_today = 1;
  user_count = 1;
  default_cap = 400000;
}
unfolding usage_today day_start
totals_run = refl
