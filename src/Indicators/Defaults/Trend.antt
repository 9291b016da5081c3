-- ===== src/Indicators/Defaults/Trend.antt =====
-- src/indicators/default-indicators.seed.ts: the defaults under "Trend". `default` adds `H` to a source.
use ai_trader_api.Base.{List, [], ◌∷◌}
use ai_trader_api.Indicators.{DefaultIndicator, main_pane, sub_pane}
use ai_trader_api.Indicators.Defaults.Form.{default}

abbrev pub trend : List DefaultIndicator
trend =
    default "supertrend" "Supertrend" "Trend" main_pane
      "indicator(\"Supertrend\")\n[st, dir] = ta.supertrend(3, 10)\nplot(dir < 0 ? st : na, \"Supertrend Up\")\nplot(dir > 0 ? st : na, \"Supertrend Down\")"
    ∷ default "sar" "Parabolic SAR" "Trend" main_pane
        "indicator(\"Parabolic SAR\")\nplot(ta.sar(0.02, 0.02, 0.2), \"SAR\")"
    ∷ default "ichimoku" "Ichimoku Cloud" "Trend" main_pane
        "indicator(\"Ichimoku Cloud\")\nconv = (ta.highest(high, 9) + ta.lowest(low, 9)) / 2\nbase = (ta.highest(high, 26) + ta.lowest(low, 26)) / 2\nspanA = (conv + base) / 2\nspanB = (ta.highest(high, 52) + ta.lowest(low, 52)) / 2\nplot(conv, \"Conversion Line\")\nplot(base, \"Base Line\")\nplot(spanA, \"Cloud Upper\")\nplot(spanB, \"Cloud Lower\")"
    ∷ default "dmi" "DMI / ADX" "Trend" sub_pane
        "indicator(\"DMI/ADX\")\n[p, mn, adx] = ta.dmi(14, 14)\nplot(p, \"+DI\")\nplot(mn, \"-DI\")\nplot(adx, \"ADX\")"
    ∷ default "wavelet" "Wavelet Trend" "Trend" main_pane
        "indicator(\"Wavelet Trend\")\napprox1 = (close + close[1]) / 2\napprox2 = (approx1 + approx1[2]) / 2\nplot(approx2, \"Trend\")"
    ∷ default "swing-high" "Swing High Line" "Trend" main_pane
        "indicator(\"Swing High\")\nisSwingHigh = high == ta.highest(high, 10)\nvar float lastSwingHigh = na\nif isSwingHigh\n    lastSwingHigh := high\nplot(lastSwingHigh, \"Last Swing High\")"
    ∷ []
