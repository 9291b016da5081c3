-- ===== src/Indicators/Tests.antt =====
-- Runs of the indicators on a list of documents.
use ai_trader_api.Base.{◌≡◌, refl, none, List, map, [], ◌∷◌, filter}
use ai_trader_api.Base.Text.{Text, units}
use ai_trader_api.Base.Action.{err}
use ai_trader_api.Base.Collection.{Collection, list_collection, list_collection-IsLawful}
use ai_trader_api.Indicators.{
  not_found_or_forbidden, seed_one, Indicator, IndicatorDto, main_pane, sub_pane, same_indicator,
  DefaultIndicator, forbidden, not_found, slugify, seed, update, remove, custom,
}
use ai_trader_api.Indicators.Puts.{AllFound, is_other, untimed}
use ai_trader_api.Indicators.Seeding.{seed-IsStable}
use ai_trader_api.Indicators.Defaults.{default_indicators}
use ai_trader_api.Indicators.Defaults.Ids.{default_ids_are_distinct}
use ai_trader_api.Indicators.Ownership.{
  Call, create_call, update_call, remove_call, run, is_foreign, foreign_indicators_stay,
}

abbrev indicators : Collection (List Indicator) Indicator
indicators = list_collection same_indicator

abbrev same : Text → Text
same s = s

abbrev sma : Indicator
sma = record {
  id = units "sma";
  owner_id = none;
  name = units "sma";
  category = "trend";
  pane = main_pane;
  source = "plot(ta.sma(close, 9))";
  created_at = 3;
  updated_at = 8;
}

abbrev default_sma : DefaultIndicator
default_sma = record {
  id = units "sma";
  name = units "sma";
  category = "trend";
  pane = main_pane;
  source = "plot(ta.sma(close, 9))";
}

abbrev mine : IndicatorDto
mine = record {
  name = units " my  sma!";
  category = "trend";
  pane = sub_pane;
  source = "plot(close)";
}

slug_run : slugify same (units "1234abcd") (units " my  sma!") ≡ units "custom-my-sma-1234abcd"
unfolding slugify
slug_run = refl

seed_run :
    seed indicators (λ d. 8) (default_sma ∷ []) (record sma { source = "old"; updated_at = 3 } ∷ [])
    ≡ sma ∷ []
unfolding seed seed_one
seed_run = refl

update_default_run :
    update indicators 9 "u" (units "sma") mine (sma ∷ []) ≡ (err forbidden, sma ∷ [])
unfolding update not_found_or_forbidden
update_default_run = refl

remove_missing_run : remove indicators "u" (units "ema") (sma ∷ []) ≡ (err not_found, sma ∷ [])
unfolding remove not_found_or_forbidden
remove_missing_run = refl

abbrev calls : List Call
calls =
    create_call (units "1234abcd") 9 mine
    ∷ update_call 10 (units "sma") mine
    ∷ remove_call (units "sma")
    ∷ []

foreign_indicators_stay_example :
    filter (is_foreign indicators same "u") (run indicators same "u" calls (sma ∷ []))
    ≡ filter (is_foreign indicators same "u") (sma ∷ [])
foreign_indicators_stay_example =
    foreign_indicators_stay indicators same "u" (list_collection-IsLawful same_indicator) calls
      (sma ∷ [])

-- A store with an old source of a default, and an indicator of a user.
abbrev stored : List Indicator
stored = record sma { source = "old" } ∷ custom (units "custom-sma-1234abcd") "u" 5 mine ∷ []

seed-IsStable_example :
    let booted = seed indicators (λ d. 7) default_indicators stored in
    let again = seed indicators (λ d. 8) default_indicators booted in
    AllFound (λ d. 7) default_indicators booted
    × (map untimed again ≡ map untimed booted)
    × (filter (is_other default_indicators) again ≡ filter (is_other default_indicators) booted)
    × (filter (is_other default_indicators) booted ≡ filter (is_other default_indicators) stored)
seed-IsStable_example =
    seed-IsStable indicators (list_collection-IsLawful same_indicator) (λ d. 7) (λ d. 8)
      default_indicators stored default_ids_are_distinct
