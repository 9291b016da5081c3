-- ===== src/Indicators/Defaults/Ids.antt =====
-- src/indicators/default-indicators.seed.ts and `slugify`: the ids of the defaults are not those of users.
use ai_trader_api.Base.{◌≡◌, refl, ℕ, String, true}
use ai_trader_api.Base.Text.{Text}
use ai_trader_api.Indicators.{slugify, IndicatorDto, custom}
use ai_trader_api.Indicators.Puts.{distinct_ids, is_other}
use ai_trader_api.Indicators.Defaults.{default_indicators}

-- No two of the defaults have one id.
pub default_ids_are_distinct : distinct_ids default_indicators ≡ true
default_ids_are_distinct = refl

-- An indicator that a user creates never has the id of a default, whatever its name and the random
-- suffix, so that no boot writes over it.
pub created_is_other :
    (lower : Text → Text) (suffix : Text) (user : String) (now : ℕ) (dto : IndicatorDto)
    → is_other default_indicators (custom (slugify lower suffix dto.name) user now dto) ≡ true
unfolding slugify
created_is_other lower suffix user now dto = refl
