-- ===== src/MarketSession/Tests.antt =====
-- Instants of 2 January 1970.
use ai_trader_api.Base.{◌≡◌, refl}
use ai_trader_api.MarketSession.{session_start}

-- 03:46:40 UTC is 09:16:40 in India, where the session opened at 09:15.
after_open_run : session_start 100000000 ≡ 99900000
unfolding session_start
after_open_run = refl
