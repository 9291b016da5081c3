-- ===== src/Admin/Caps.antt =====
-- admin.service.ts: what the admin is shown, and what the budget enforces.
use ai_trader_api.Base.{ℕ, ◌≡◌, refl, ap, ◌∙◌, String, Bool, Option, none, some, or_else}
use ai_trader_api.Base.Action.{ok}
use ai_trader_api.Chat.{ChatTurn}
use ai_trader_api.Chat.Budget.{
  BudgetReads, is_today, spent_today, cap_for, tokens_of_row, turns_of_row,
}
use ai_trader_api.Admin.{User, UsageRow, AdminStore, usage_row, tokens_in, turns_in, set_cap}

abbrev pub pair_of : Option UsageRow → Option (ℕ × ℕ)
pair_of none = none
pair_of (some r) = some (r.tokens, r.turns)

-- The two services read the same collections: the aggregation of a user's turns, and the override that
-- was just set.
pub record IsShared {S J : Type 0} (store : AdminStore S J) (reads : BudgetReads S J) : Type 0 where
  pub same_usage :
      (p : ChatTurn J → Bool) (s : S) → reads.spent p s ≡ some (pair_of (store.usage_of p s))
  pub override_read :
      (user : String) (cap : Option ℕ) (s : S) (u : User)
      → (store.set_override user cap s).0 ≡ some (some u)
      → reads.override user (store.set_override user cap s).1 ≡ some u.daily_token_cap_override

tokens_of_row-pair_of : (r : Option UsageRow) → tokens_of_row (pair_of r) ≡ tokens_in r
tokens_of_row-pair_of none = refl
tokens_of_row-pair_of (some r) = refl

turns_of_row-pair_of : (r : Option UsageRow) → turns_of_row (pair_of r) ≡ turns_in r
turns_of_row-pair_of none = refl
turns_of_row-pair_of (some r) = refl

module _ {S J : Type 0} (store : AdminStore S J) (reads : BudgetReads S J)
    (shared : IsShared store reads) where
  cap_for-set_override :
      (default_cap : ℕ) (user : String) (cap : Option ℕ) (s : S) (u : User)
      → (store.set_override user cap s).0 ≡ some (some u)
      → cap_for reads default_cap user (store.set_override user cap s).1
        ≡ or_else u.daily_token_cap_override default_cap
  unfolding cap_for
  cap_for-set_override default_cap user cap s u e =
      ap (λ o. elim o [ none ↦ default_cap | some o ↦ or_else o default_cap ])
        (shared.override_read user cap s u e)

  set_cap-set_override :
      (default_cap : ℕ) (user : String) (cap : Option ℕ) (now : ℕ) (s : S) (u : User)
      → (store.set_override user cap s).0 ≡ some (some u)
      → (set_cap store default_cap user cap now s).1 ≡ (store.set_override user cap s).1
  unfolding set_cap
  set_cap-set_override default_cap user cap now s u e = rw (set_cap, e) refl

  spent_today-set_override :
      (default_cap : ℕ) (user : String) (cap : Option ℕ) (now : ℕ) (s : S) (u : User)
      → (store.set_override user cap s).0 ≡ some (some u)
      → let row =
          usage_row default_cap user u
            (store.usage_of (is_today user now) (store.set_override user cap s).1) in
        spent_today reads default_cap user now (store.set_override user cap s).1
        ≡ some (record {
          tokens = row.tokens_today;
          turns = row.turns_today;
          cap = row.cap;
          remaining = row.remaining;
        })
  unfolding spent_today
  spent_today-set_override default_cap user cap now s u e =
      let s' = (store.set_override user cap s).1 in
      let r = store.usage_of (is_today user now) s' in
      rw
        (
          spent_today,
          shared.same_usage (is_today user now) s',
          cap_for-set_override default_cap user cap s u e,
          tokens_of_row-pair_of r,
          turns_of_row-pair_of r,
        )
        refl

  -- If the admin and the budget read the same turns and the cap that was just set, then setting the
  -- cap of a user who exists shows the admin what the budget enforces from then on: the same tokens
  -- and turns of today, the same cap, and the same rest of it.
  pub set_cap-spent_today :
      (default_cap : ℕ) (user : String) (cap : Option ℕ) (now : ℕ) (s : S) (u : User)
      → (store.set_override user cap s).0 ≡ some (some u)
      → let row =
          usage_row default_cap user u
            (store.usage_of (is_today user now) (store.set_override user cap s).1) in
        ((set_cap store default_cap user cap now s).0 ≡ ok row)
        × (spent_today reads default_cap user now (set_cap store default_cap user cap now s).1
            ≡ some (record {
              tokens = row.tokens_today;
              turns = row.turns_today;
              cap = row.cap;
              remaining = row.remaining;
            }))
  unfolding set_cap
  set_cap-spent_today default_cap user cap now s u e = (
    rw (set_cap, e) refl,
    ap (spent_today reads default_cap user now)
          (set_cap-set_override default_cap user cap now s u e)
        ∙ spent_today-set_override default_cap user cap now s u e,
  )
