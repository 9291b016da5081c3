-- ===== src/Requests/Limits.antt =====
-- `parseLimit` of src/chat/chat.controller.ts and src/admin/admin.controller.ts. A number that is not
-- finite is read as `not_a_number`.
use ai_trader_api.Base.{ℕ, ◌≤◌, Option, if◌then◌else◌, leb, or_else, arith, []}
use ai_trader_api.Base.Text.{Text}
use ai_trader_api.Requests.{Parsed, not_a_number, negative, natural}

-- The number that was read, where it is finite and positive.
abbrev pub positive_or : Parsed → ℕ → ℕ
positive_or not_a_number fallback = fallback
positive_or negative fallback = fallback
positive_or (natural n) fallback = if leb 1 n then n else fallback

pub parse_limit : (Text → Parsed) → Option Text → ℕ → ℕ
parse_limit parse_int raw fallback = positive_or (parse_int (or_else raw [])) fallback

positive_or_lem : (p : Parsed) (fallback : ℕ) → 1 ≤ fallback → 1 ≤ positive_or p fallback
positive_or_lem not_a_number fallback h = h
positive_or_lem negative fallback h = h
positive_or_lem (natural n) fallback h = ground (arith, h)

-- A limit that is read is never zero, which the driver takes for none.
parse_limit_positive :
    (parse_int : Text → Parsed) (raw : Option Text) (fallback : ℕ)
    → 1 ≤ fallback
    → 1 ≤ parse_limit parse_int raw fallback
unfolding parse_limit
parse_limit_positive parse_int raw fallback h =
    positive_or_lem (parse_int (or_else raw [])) fallback h
