-- ===== src/Indicators/Defaults/Form.antt =====
-- src/indicators/default-indicators.seed.ts: how an entry of the table is written down here.
use ai_trader_api.Base.{String}
use ai_trader_api.Base.Text.{units}
use ai_trader_api.Indicators.{DefaultIndicator, IndicatorPane}
use Prim.Native.String

-- `H` and the line after it.
abbrev pub default : String → String → String → IndicatorPane → String → DefaultIndicator
default id name category pane source = record {
  id = units id;
  name = units name;
  category = category;
  pane = pane;
  source = String.◌++◌ "//@version=5\n" source;
}
