-- ===== src/Sse/Tests.antt =====
-- The frames of concrete streams.
use ai_trader_api.Base.{Bool, true, false, Option, none, some, ◌==◌, if◌then◌else◌}
use ai_trader_api.Base.Text.{trim, trim_start, is_space}
use ai_trader_api.Sse.{frame, data_of}
use ai_trader_api.Sse.RoundTrip.{push-frame}
use ai_trader_api.Base.{◌≡◌, refl, List, [], ◌∷◌}
use ai_trader_api.Base.Text.{Text, units}
use ai_trader_api.Sse.{newline, cut, push, is_event}
use ai_trader_api.Sse.Chunks.{feed, joined, feed-eq-push}

abbrev first_chunk : Text
first_chunk = units "a"

abbrev second_chunk : List Text
second_chunk = (newline ∷ newline ∷ units "b") ∷ []

push_two : push first_chunk (newline ∷ newline ∷ units "b") ≡ (units "a" ∷ [], units "b")
unfolding push cut is_event
push_two = refl

feed-eq-push_example :
    feed [] (first_chunk ∷ second_chunk) ≡ push [] (joined first_chunk second_chunk)
feed-eq-push_example = feed-eq-push [] first_chunk second_chunk

-- The JSON of the two truth values.
abbrev write_bool : Bool → Text
write_bool true = units "true"
write_bool false = units "false"

abbrev read_bool : Text → Option Bool
read_bool [] = none
read_bool (c ∷ s) = if c == 116 then some true else if c == 102 then some false else none

push-frame_example :
    (push [] (frame read_bool write_bool true) ≡ (units "data: true" ∷ [], []))
    × (data_of read_bool write_bool (units "data: true") ≡ some true)
unfolding trim trim_start is_space
push-frame_example =
    push-frame read_bool write_bool true (refl, (refl, (refl, (refl, tt)))) refl refl refl
