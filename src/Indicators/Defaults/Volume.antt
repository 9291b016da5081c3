-- ===== src/Indicators/Defaults/Volume.antt =====
-- src/indicators/default-indicators.seed.ts: the defaults under "Volume". `default` adds `H` to a source.
use ai_trader_api.Base.{List, [], ◌∷◌}
use ai_trader_api.Indicators.{DefaultIndicator, sub_pane}
use ai_trader_api.Indicators.Defaults.Form.{default}

abbrev pub volume : List DefaultIndicator
volume =
    default "mfi" "Money Flow Index" "Volume" sub_pane
      "indicator(\"MFI\")\nplot(ta.mfi(hlc3, 14), \"MFI\")"
    ∷ default "obv" "On Balance Volume" "Volume" sub_pane
        "indicator(\"OBV\")\nplot(ta.obv(), \"OBV\")"
    ∷ default "accdist" "Accumulation / Distribution" "Volume" sub_pane
        "indicator(\"Accum/Dist\")\nplot(ta.accdist(), \"A/D\")"
    ∷ default "pvt" "Price Volume Trend" "Volume" sub_pane
        "indicator(\"PVT\")\nplot(ta.pvt(), \"PVT\")"
    ∷ default "nvi" "Negative Volume Index" "Volume" sub_pane
        "indicator(\"NVI\")\nplot(ta.nvi(), \"NVI\")"
    ∷ default "pvi" "Positive Volume Index" "Volume" sub_pane
        "indicator(\"PVI\")\nplot(ta.pvi(), \"PVI\")"
    ∷ default "wad" "Williams Accumulation/Distribution" "Volume" sub_pane
        "indicator(\"WAD\")\nplot(ta.wad(), \"WAD\")"
    ∷ []
