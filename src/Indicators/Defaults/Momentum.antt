-- ===== src/Indicators/Defaults/Momentum.antt =====
-- src/indicators/default-indicators.seed.ts: the defaults under "Momentum". `default` adds `H` to a source.
use ai_trader_api.Base.{List, [], ◌∷◌}
use ai_trader_api.Indicators.{DefaultIndicator, sub_pane}
use ai_trader_api.Indicators.Defaults.Form.{default}

abbrev pub momentum : List DefaultIndicator
momentum =
    default "rsi" "Relative Strength Index" "Momentum" sub_pane
      "indicator(\"RSI\")\nplot(ta.rsi(close, 14), \"RSI\")"
    ∷ default "stoch" "Stochastic" "Momentum" sub_pane
        "indicator(\"Stochastic\")\nk = ta.stoch(close, high, low, 14)\nd = ta.sma(k, 3)\nplot(k, \"Stoch %K\")\nplot(d, \"Stoch %D\")"
    ∷ default "macd" "MACD" "Momentum" sub_pane
        "indicator(\"MACD\")\n[m, s, h] = ta.macd(close, 12, 26, 9)\nplot(m, \"MACD\")\nplot(s, \"Signal\")\nplot(h, \"Histogram\")"
    ∷ default "cci" "Commodity Channel Index" "Momentum" sub_pane
        "indicator(\"CCI\")\nplot(ta.cci(close, 20), \"CCI\")"
    ∷ default "wpr" "Williams %R" "Momentum" sub_pane
        "indicator(\"Williams %R\")\nplot(ta.wpr(14), \"%R\")"
    ∷ default "cmo" "Chande Momentum Oscillator" "Momentum" sub_pane
        "indicator(\"CMO\")\nplot(ta.cmo(close, 14), \"CMO\")"
    ∷ default "tsi" "True Strength Index" "Momentum" sub_pane
        "indicator(\"TSI\")\nplot(ta.tsi(close, 13, 25), \"TSI\")"
    ∷ default "mom" "Momentum" "Momentum" sub_pane
        "indicator(\"Momentum\")\nplot(ta.mom(close, 10), \"Momentum\")"
    ∷ default "roc" "Rate of Change" "Momentum" sub_pane
        "indicator(\"ROC\")\nplot(ta.roc(close, 10), \"ROC\")"
    ∷ default "ao" "Awesome Oscillator" "Momentum" sub_pane
        "indicator(\"Awesome Oscillator\")\nao = ta.sma(hl2, 5) - ta.sma(hl2, 34)\nplot(ao, \"Histogram\")"
    ∷ default "bbp" "Bollinger Bands %B" "Momentum" sub_pane
        "indicator(\"Bollinger %B\")\n[u, m, l] = ta.bb(close, 20, 2)\nplot((close - l) / (u - l), \"%B\")"
    ∷ default "cog" "Center of Gravity" "Momentum" sub_pane
        "indicator(\"COG\")\nplot(ta.cog(close, 10), \"COG\")"
    ∷ default "ema-diff" "EMA Diff" "Momentum" sub_pane
        "indicator(\"EMA Diff\")\nplot(ta.ema(close, 20) - ta.ema(close, 50), \"EMA Diff\")"
    ∷ []
