-- ===== src/Indicators/Defaults/Volatility.antt =====
-- src/indicators/default-indicators.seed.ts: the defaults under "Volatility". `default` adds `H` to a source.
use ai_trader_api.Base.{List, [], ◌∷◌}
use ai_trader_api.Indicators.{DefaultIndicator, main_pane, sub_pane, volume_pane}
use ai_trader_api.Indicators.Defaults.Form.{default}

abbrev pub volatility : List DefaultIndicator
volatility =
    default "bb" "Bollinger Bands" "Volatility" main_pane
      "indicator(\"Bollinger Bands\")\n[u, m, l] = ta.bb(close, 20, 2)\nplot(m, \"BB Basis\")\nplot(u, \"BB Upper\")\nplot(l, \"BB Lower\")"
    ∷ default "kc" "Keltner Channels" "Volatility" main_pane
        "indicator(\"Keltner Channels\")\n[basis, u, l] = ta.kc(close, 20, 1.5, false)\nplot(basis, \"KC Basis\")\nplot(u, \"KC Upper\")\nplot(l, \"KC Lower\")"
    ∷ default "atr" "Average True Range" "Volatility" sub_pane
        "indicator(\"ATR\")\nplot(ta.atr(14), \"ATR\")"
    ∷ default "spread" "Spread" "Volatility" sub_pane
        "indicator(\"Spread\")\nplot(high - low, \"Spread\")"
    ∷ default "spread-on-volume" "Spread (on Volume)" "Volatility" volume_pane
        "indicator(\"Spread\")\nplot(high - low, \"Spread\")"
    ∷ default "bbw" "Bollinger Bands Width" "Volatility" sub_pane
        "indicator(\"BBW\")\nplot(ta.bbw(close, 20, 2), \"BBW\")"
    ∷ default "kcw" "Keltner Channel Width" "Volatility" sub_pane
        "indicator(\"KCW\")\nplot(ta.kcw(close, 20, 1.5, false), \"KCW\")"
    ∷ default "stdev" "Standard Deviation" "Volatility" sub_pane
        "indicator(\"StdDev\")\nplot(ta.stdev(close, 20), \"StdDev\")"
    ∷ default "donchian" "Donchian Channels" "Volatility" main_pane
        "indicator(\"Donchian Channels\")\nupper = ta.highest(high, 20)\nlower = ta.lowest(low, 20)\nplot((upper + lower) / 2, \"Donchian Basis\")\nplot(upper, \"Donchian Upper\")\nplot(lower, \"Donchian Lower\")"
    ∷ default "envelope" "Moving Average Envelope" "Volatility" main_pane
        "indicator(\"Envelope\")\nbasis = ta.sma(close, 20)\nplot(basis * 1.1, \"Envelope Upper\")\nplot(basis * 0.9, \"Envelope Lower\")"
    ∷ default "stdev-band" "StdDev Band" "Volatility" main_pane
        "indicator(\"StdDev Band\")\ndev = ta.stdev(close, 20) * 2\nplot(close + dev, \"StdDev Upper\")\nplot(close - dev, \"StdDev Lower\")"
    ∷ []
