-- ===== src/MarketSession.antt =====
-- src/common/market-session.ts: session and day boundaries in India (UTC+05:30, no daylight saving).
-- An instant is the number of milliseconds since the epoch, `Date.getTime`. `Date.UTC` of the year,
-- month and day of an instant is its midnight, which is a multiple of a day.
mod Tests
use ai_trader_api.Base.{ℕ, ◌≡◌, ◌+◌, ◌-◌, ◌*◌, ◌/◌, ◌%◌, ◌≤◌, ◌<◌, ltb, arith, if◌then◌else◌, refl}

abbrev pub ist_offset_minutes : ℕ
ist_offset_minutes = 330

abbrev pub session_open_minutes : ℕ
session_open_minutes = 9 * 60 + 15

abbrev pub ms_per_minute : ℕ
ms_per_minute = 60000

abbrev pub ms_per_day : ℕ
ms_per_day = 24 * 60 * ms_per_minute

-- Midnight of the day of an instant of the shifted clock.
abbrev pub midnight : ℕ → ℕ
midnight ist = ist / ms_per_day * ms_per_day

-- `sessionStart`.
unfoldable pub session_start : ℕ → ℕ
session_start now =
    let ist = now + ist_offset_minutes * ms_per_minute in
    let open' = midnight ist + session_open_minutes * ms_per_minute in
    (if ltb ist open' then open' - ms_per_day else open') - ist_offset_minutes * ms_per_minute

-- `dayStart`.
unfoldable pub day_start : ℕ → ℕ
day_start now =
    midnight (now + ist_offset_minutes * ms_per_minute) - ist_offset_minutes * ms_per_minute

-- From the second day of the epoch on, the session of an instant started at 09:15 India time, at or
-- before that instant and less than a day before it.
session_start_lem :
    (now : ℕ)
    → ms_per_day ≤ now
    → (session_start now ≤ now)
      × (now < session_start now + ms_per_day)
      × ((session_start now + ist_offset_minutes * ms_per_minute) % ms_per_day
          ≡ session_open_minutes * ms_per_minute)
unfolding session_start
session_start_lem now late = (ground arith, ground arith, ground arith)

-- From the second day of the epoch on, the day of an instant started at midnight India time, at or
-- before that instant and less than a day before it, and the session of the instant started no more
-- than a day before that midnight.
pub day_start_lem :
    (now : ℕ)
    → ms_per_day ≤ now
    → (day_start now ≤ now)
      × (now < day_start now + ms_per_day)
      × ((day_start now + ist_offset_minutes * ms_per_minute) % ms_per_day ≡ 0)
      × (day_start now ≤ session_start now + ms_per_day)
unfolding day_start session_start
day_start_lem now late = (ground arith, ground arith, ground arith, ground arith)
