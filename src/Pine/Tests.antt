-- ===== src/Pine/Tests.antt =====
-- A run of a script.
use ai_trader_api.Base.{◌≡◌, refl, String, none, some, []}
use ai_trader_api.HttpClient.{post}
use ai_trader_api.Pine.{RunPineDto, Mode, indicator, strategy, run_options}

-- The body is the name of the mode.
abbrev named : RunPineDto String Mode → String
named dto = elim dto.mode [ indicator ↦ "indicator" | strategy ↦ "strategy" ]

mode_run :
    run_options named (record {
      source = "plot(close)";
      bars = [];
      mode = none;
      symbol = none;
      exchange = none;
      interval = none;
      input_overrides = none;
    })
    ≡ (record {
      method = some post;
      body = some "indicator";
      params = none;
      timeout_ms = some 10000;
      retry_on_network_error = none;
    })
mode_run = refl
