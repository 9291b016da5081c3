-- ===== src/Requests/Tests.antt =====
-- Runs of the request checks.
use ai_trader_api.Base.{ℕ, ◌≡◌, refl, none, some, [], length}
use ai_trader_api.Base.Text.{Text, units, trim}
use ai_trader_api.Base.Action.{ok, err}
use ai_trader_api.Watchlist.{is_symbol}
use ai_trader_api.Requests.Generation.{valid_generation, limit_of_query}
use ai_trader_api.Requests.{
  ChatDto, normalise_chat_request, valid_exchange, valid_days, valid_ticks_range, natural,
  invalid_exchange, invalid_days, invalid_time, no_message,
}

abbrev same : Text → Text
same s = s

abbrev question : ChatDto ℕ
question = record {
  symbol = some (units " NIFTY 50 ");
  exchange = none;
  message = some (units "why?");
  history = none;
}

normal_run :
    normalise_chat_request same question
    ≡ ok (record {
      symbol = units "NIFTY 50";
      exchange = units "NSE";
      message = units "why?";
      history = [];
    })
unfolding normalise_chat_request is_symbol trim
normal_run = refl

blank_message_run :
    normalise_chat_request same (record question { message = some (units "  ") }) ≡ err no_message
unfolding normalise_chat_request is_symbol trim
blank_message_run = refl

exchange_run : valid_exchange same (units "LSE") ≡ err invalid_exchange
unfolding valid_exchange trim
exchange_run = refl

days_run : valid_days (natural 3651) ≡ err invalid_days
unfolding valid_days
days_run = refl

four_hours_run : valid_ticks_range 1000000 (natural 985600) (natural 1000000) ≡ ok (985600, 1000000)
unfolding valid_ticks_range
four_hours_run = refl

too_wide_run : valid_ticks_range 1000000 (natural 985599) (natural 1000000) ≡ err invalid_time
unfolding valid_ticks_range
too_wide_run = refl

generation_run : valid_generation same (units "TCS") (units "NASDAQ") ≡ err invalid_exchange
unfolding is_symbol trim
generation_run = refl

limit_run : limit_of_query length (some []) 50 ≡ 50
limit_run = refl
