-- ===== src/Indicators/Defaults.antt =====
-- src/indicators/default-indicators.seed.ts: the indicators that every boot seeds.
pub mod Ids
mod Form
mod MovingAverages
mod Trend
mod Volatility
mod Momentum
mod Volume
use ai_trader_api.Base.{List, ◌++◌}
use ai_trader_api.Indicators.{DefaultIndicator}
use ai_trader_api.Indicators.Defaults.MovingAverages.{moving_averages}
use ai_trader_api.Indicators.Defaults.Trend.{trend}
use ai_trader_api.Indicators.Defaults.Volatility.{volatility}
use ai_trader_api.Indicators.Defaults.Momentum.{momentum}
use ai_trader_api.Indicators.Defaults.Volume.{volume}

-- `DEFAULT_INDICATORS`.
abbrev pub default_indicators : List DefaultIndicator
default_indicators = moving_averages ++ (trend ++ (volatility ++ (momentum ++ volume)))
