-- ===== src/Indicators/Defaults/MovingAverages.antt =====
-- src/indicators/default-indicators.seed.ts: the defaults under "Moving Averages". `default` adds `H` to a source.
use ai_trader_api.Base.{List, [], ◌∷◌}
use ai_trader_api.Indicators.{DefaultIndicator, main_pane}
use ai_trader_api.Indicators.Defaults.Form.{default}

abbrev pub moving_averages : List DefaultIndicator
moving_averages =
    default "sma" "Simple Moving Average" "Moving Averages" main_pane
      "indicator(\"SMA\")\nplot(ta.sma(close, 20), \"SMA\")"
    ∷ default "ema" "Exponential Moving Average" "Moving Averages" main_pane
        "indicator(\"EMA\")\nplot(ta.ema(close, 20), \"EMA\")"
    ∷ default "wma" "Weighted Moving Average" "Moving Averages" main_pane
        "indicator(\"WMA\")\nplot(ta.wma(close, 20), \"WMA\")"
    ∷ default "vwma" "Volume Weighted Moving Average" "Moving Averages" main_pane
        "indicator(\"VWMA\")\nplot(ta.vwma(close, 20), \"VWMA\")"
    ∷ default "hma" "Hull Moving Average" "Moving Averages" main_pane
        "indicator(\"HMA\")\nplot(ta.hma(close, 20), \"HMA\")"
    ∷ default "rma" "Smoothed Moving Average (RMA)" "Moving Averages" main_pane
        "indicator(\"RMA\")\nplot(ta.rma(close, 20), \"RMA\")"
    ∷ default "alma" "Arnaud Legoux Moving Average" "Moving Averages" main_pane
        "indicator(\"ALMA\")\nplot(ta.alma(close, 9, 0.85, 6), \"ALMA\")"
    ∷ default "vwap" "VWAP" "Moving Averages" main_pane
        "indicator(\"VWAP\")\nplot(ta.vwap(close), \"VWAP\")"
    ∷ default "linreg" "Linear Regression Curve" "Moving Averages" main_pane
        "indicator(\"Linear Regression\")\nplot(ta.linreg(close, 14, 0), \"Linear Reg\")"
    ∷ default "median" "Moving Median" "Moving Averages" main_pane
        "indicator(\"Median\")\nplot(ta.median(close, 20), \"Median\")"
    ∷ default "swma" "Symmetrically Weighted MA" "Moving Averages" main_pane
        "indicator(\"SWMA\")\nplot(ta.swma(close), \"SWMA\")"
    ∷ default "gaussian" "Gaussian Filter" "Moving Averages" main_pane
        "indicator(\"Gaussian Filter\")\nlength = 9\nsigma = 3.0\nsum_w = 0.0\nsum_wv = 0.0\nfor k = 0 to length - 1\n    w = math.exp(-(k * k) / (2 * sigma * sigma))\n    sum_w += w\n    sum_wv += w * close[k]\nplot(sum_wv / sum_w, \"Gaussian\")"
    ∷ []
