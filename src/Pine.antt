-- ===== src/Pine.antt =====
-- src/pine/pine.service.ts: the run of a script, which is one call of the signals service. `encode`
-- builds the JSON of the body.
mod Tests
use ai_trader_api.Base.{ℕ, ◌≡◌, String, Option, none, some, List, [], or_else, length}
use ai_trader_api.Base.Text.{Text, units}
use ai_trader_api.Base.Action.{Action}
use ai_trader_api.HttpClient.{
  Json, Request, Fetched, UpstreamRequestOptions, UpstreamError, request, post,
}
use ai_trader_api.HttpClient.Retry.{logged, request_fetches}

pub data Mode : Type 0 where
  indicator strategy : Mode

-- `RunPineDto`, and what is sent, where a mode is given.
pub record RunPineDto (J M : Type 0) : Type 0 where
  pub source : String
  pub bars : List J
  pub mode : M
  pub symbol : Option String
  pub exchange : Option String
  pub interval : Option String
  pub input_overrides : Option J

module _ {J : Type 0} (encode : RunPineDto J Mode → J) where
  abbrev pub run_options : RunPineDto J (Option Mode) → UpstreamRequestOptions J
  run_options dto = record {
    method = some post;
    body = some (
        encode (record {
          source = dto.source;
          bars = dto.bars;
          mode = or_else dto.mode indicator;
          symbol = dto.symbol;
          exchange = dto.exchange;
          interval = dto.interval;
          input_overrides = dto.input_overrides;
        }));
    params = none;
    timeout_ms = some 10000;
    retry_on_network_error = none;
  }

module _ {J : Type 0} (json : Json J) (encode : RunPineDto J Mode → J) where
  -- `PineService.run`.
  pub run_pine :
      {W : Type 0}
      → (Request J → W → Fetched J × W)
      → Text
      → RunPineDto J (Option Mode)
      → Action (UpstreamError J) W J
  run_pine fetch base dto =
      request json fetch base (units "/signals/pine/run") (run_options encode dto)

  -- A script is sent to be run once, and not again after a failure of the network.
  run_pine_once :
      {W : Type 0} (fetch : Request J → W → Fetched J × W) (base : Text)
      (dto : RunPineDto J (Option Mode)) (w : W)
      → length (run_pine (logged fetch) base dto (w, [])).1.1 ≡ 1
  unfolding run_pine
  run_pine_once fetch base dto w =
      request_fetches json fetch base (units "/signals/pine/run") (run_options encode dto) w
