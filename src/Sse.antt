-- ===== src/Sse.antt =====
-- src/common/http/sse.ts: cutting a stream of chunks into Server-Sent Events frames, reading the
-- data of a frame, and encoding an event. Texts are lists of UTF-16 code units.
-- `JSON.parse` and `JSON.stringify` are arguments.
pub mod Chunks
pub mod RoundTrip
mod Tests
use ai_trader_api.Base.{
  ℕ, Bool, true, false, not, ◌&&◌, Option, none, some, List, [], ◌∷◌, ◌++◌, map, ◌==◌,
  if◌then◌else◌, filter, drop,
}
use ai_trader_api.Base.Text.{Text, units, trim, is_empty}

abbrev pub newline : ℕ
newline = 10

-- `FRAME_SEPARATOR`.
abbrev pub frame_separator : Text
frame_separator = newline ∷ newline ∷ []

-- `text.split(FRAME_SEPARATOR)` with its last element apart: the parts in front of it, and it.
-- `current` is what is read of the part at hand.
unfoldable pub cut : Text → Text → List Text × Text
cut current [] = ([], current)
cut current (a ∷ []) = ([], current ++ a ∷ [])
cut current (a ∷ b ∷ s) = elim (a == newline && b == newline) [
  | true ↦ (current ∷ (cut [] s).0, (cut [] s).1)
  | false ↦ cut (current ++ a ∷ []) (b ∷ s)
]

-- `p.trim().length > 0`
unfoldable pub is_event : Text → Bool
unfolding trim
is_event part = not (is_empty (trim part))

-- `SseFrames.push`: the complete frames, and the new buffer.
unfoldable pub push : Text → Text → List Text × Text
push buffer chunk = let (parts, rest) = cut [] (buffer ++ chunk) in (filter is_event parts, rest)

-- `text.split('\n')`
unfoldable pub lines_from : Text → Text → List Text
lines_from current [] = current ∷ []
lines_from current (c ∷ s) = elim (c == newline) [
  | true ↦ current ∷ lines_from [] s
  | false ↦ lines_from (current ++ c ∷ []) s
]

abbrev pub data_prefix : Text
data_prefix = units "data:"

unfoldable pub starts_with : Text → Text → Bool
starts_with [] s = true
starts_with (p ∷ ps) [] = false
starts_with (p ∷ ps) (c ∷ s) = c == p && starts_with ps s

-- `parts.join('\n')`
unfoldable pub join_lines : List Text → Text
join_lines [] = []
join_lines (l ∷ []) = l
join_lines (l ∷ m ∷ ls) = l ++ newline ∷ join_lines (m ∷ ls)

unfoldable pub payload_of : Text → Text
payload_of frame' =
    join_lines
      (map (λ l. trim (drop 5 l)) (filter (starts_with data_prefix) (lines_from [] frame')))

module _ {J : Type 0} (parse : Text → Option J) (stringify : J → Text) where
  -- `dataOf`; `parse` answers `none` where `JSON.parse` throws.
  unfoldable pub data_of : Text → Option J
  data_of frame' =
      let payload = payload_of frame' in if is_empty payload then none else parse payload

  pub frame : J → Text
  frame payload = units "data: " ++ (stringify payload ++ frame_separator)
