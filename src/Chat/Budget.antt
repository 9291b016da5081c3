-- ===== src/Chat/Budget.antt =====
-- src/chat/chat-budget.service.ts: the tokens a user may spend in a day. Token counts and caps are
-- whole numbers. A read that throws is `none`; `spent` is the aggregation of the turn collection,
-- over the tokens of a turn's usage, and `override` reads `dailyTokenCapOverride` of the user.
use ai_trader_api.Base.{
  ℕ, ◌≡◌, sym, ◌↔◌, ◌+◌, ◌-◌, ◌≤◌, String, Bool, true, false, ◌&&◌, Option, none, some, List, [],
  ◌∷◌, leb, ltb, str_eq, if◌then◌else◌, or_else, length, filter, arith,
}
use ai_trader_api.MarketSession.{day_start}
use ai_trader_api.Chat.{ChatTurn}

-- `DEFAULT_DAILY_TOKEN_CAP`.
abbrev pub default_daily_token_cap : ℕ
default_daily_token_cap = 400000

-- `SpendToday`.
pub record SpendToday : Type 0 where
  pub tokens : ℕ
  pub turns : ℕ
  pub cap : ℕ
  pub remaining : ℕ

-- What the service reads: the row of the aggregation (none where no turn matches), and the user's
-- override.
pub record BudgetReads (S J : Type 0) : Type 0 where
  pub spent : (ChatTurn J → Bool) → S → Option (Option (ℕ × ℕ))
  pub override : String → S → Option (Option ℕ)

-- The constructor's `defaultCap`, of `CHAT_DAILY_TOKEN_CAP` read as a number.
abbrev pub default_cap : Option ℕ → ℕ
default_cap none = default_daily_token_cap
default_cap (some configured) = if ltb 0 configured then configured else default_daily_token_cap

abbrev pub is_today : {J : Type 0} → String → ℕ → ChatTurn J → Bool
is_today user now t = str_eq t.user_id user && leb (day_start now) t.created_at

abbrev pub tokens_of_row : Option (ℕ × ℕ) → ℕ
tokens_of_row none = 0
tokens_of_row (some (tokens, turns)) = tokens

abbrev pub turns_of_row : Option (ℕ × ℕ) → ℕ
turns_of_row none = 0
turns_of_row (some (tokens, turns)) = turns

module _ {S J : Type 0} (reads : BudgetReads S J) (cap : ℕ) where
  -- `capFor`.
  unfoldable pub cap_for : String → S → ℕ
  cap_for user s = elim (reads.override user s) [ none ↦ cap | some o ↦ or_else o cap ]

  -- `spentToday`.
  unfoldable pub spent_today : String → ℕ → S → Option SpendToday
  spent_today user now s = elim (reads.spent (is_today user now) s) [
    | none ↦ none
    | some row ↦ some (record {
      tokens = tokens_of_row row;
      turns = turns_of_row row;
      cap = cap_for user s;
      remaining = cap_for user s - tokens_of_row row;
    })
  ]

  abbrev pub has_budget : Option SpendToday → Bool
  has_budget none = true
  has_budget (some spend) = ltb 0 spend.remaining

  -- `assertWithinBudget`: whether the turn may go ahead.
  pub assert_within_budget : String → ℕ → S → Bool
  assert_within_budget user now s = has_budget (spent_today user now s)

-- The sum of the tokens of turns.
abbrev pub sum_tokens : {J : Type 0} → (ChatTurn J → ℕ) → List (ChatTurn J) → ℕ
sum_tokens tokens [] = 0
sum_tokens tokens (t ∷ ts) = tokens t + sum_tokens tokens ts

-- The documented meaning of `$match`, `$group`, `$sum`: no row without a match, and one row with the
-- sum and the count otherwise.
pub record IsAggregation {S J : Type 0} (reads : BudgetReads S J) (tokens : ChatTurn J → ℕ)
    : Type 0 where
  pub docs : S → List (ChatTurn J)
  pub no_row :
      (p : ChatTurn J → Bool) (s : S) → reads.spent p s ≡ some none → filter p (docs s) ≡ []
  pub row :
      (p : ChatTurn J → Bool) (s : S) (sum count : ℕ)
      → reads.spent p s ≡ some (some (sum, count))
      → (sum ≡ sum_tokens tokens (filter p (docs s))) × (count ≡ length (filter p (docs s)))

module _ {S J : Type 0} (reads : BudgetReads S J) (cap : ℕ) (tokens : ChatTurn J → ℕ)
    (law : IsAggregation reads tokens) (user : String) (now : ℕ) (s : S) where
  -- Where the aggregation of the user's turns since midnight can be read, a turn is refused exactly
  -- when those turns have used up the user's cap.
  pub assert_within_budget_lem :
      (row : Option (ℕ × ℕ))
      → reads.spent (is_today user now) s ≡ some row
      → (assert_within_budget reads cap user now s ≡ false)
        ↔ (cap_for reads cap user s ≤ sum_tokens tokens (filter (is_today user now) (law.docs s)))
  unfolding assert_within_budget spent_today
  assert_within_budget_lem none e =
      rw (e, assert_within_budget, spent_today, law.no_row (is_today user now) s e) (ground arith)
  assert_within_budget_lem (some (sum, count)) e =
      let (total, _) = law.row (is_today user now) s sum count e in
      rw (e, assert_within_budget, spent_today, sym total) (ground arith)
