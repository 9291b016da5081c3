-- ===== src/Sse/RoundTrip.antt =====
-- sse.ts: `frame`, read back by `SseFrames.push` and `dataOf`.
use mathlib.Core.List.{append-nil, append_assoc, reverse-cons}
use ai_trader_api.Base.{
  ℕ, ◌≡◌, refl, sym, ap, ◌∙◌, true, false, not, inl, inr, Option, some, [], ◌∷◌, ◌++◌, ◌==◌,
  reverse, Bool-cases, All,
}
use ai_trader_api.Base.Text.{Text, units, trim, trim_start, is_space, is_empty}
use ai_trader_api.Sse.{
  newline, frame_separator, cut, push, is_event, lines_from, starts_with, payload_of, data_of,
  frame, join_lines,
}

-- A text on one line.
abbrev pub IsLine : Text → Type 0
IsLine = All (λ c. (c == newline) ≡ false)

cut-line :
    (before line : Text)
    → IsLine line
    → cut before (line ++ frame_separator) ≡ ((before ++ line) ∷ [], [])
unfolding cut
cut-line before [] h = ap (λ t. (t ∷ [], [])) (sym (append-nil before))
cut-line before (c ∷ []) h = rw (h.0, cut) refl
cut-line before (c ∷ d ∷ line) h =
    rw (h.0, cut)
      (cut-line (before ++ c ∷ []) (d ∷ line) h.1
        ∙ ap (λ t. (t ∷ [], [])) (append_assoc before (c ∷ []) (d ∷ line)))

lines_from-line :
    (before line : Text) → IsLine line → lines_from before line ≡ (before ++ line) ∷ []
unfolding lines_from
lines_from-line before [] h = ap (λ t. t ∷ []) (sym (append-nil before))
lines_from-line before (c ∷ line) h =
    rw (h.0, lines_from)
      (lines_from-line (before ++ c ∷ []) line h.1
        ∙ ap (λ t. t ∷ []) (append_assoc before (c ∷ []) line))

-- A text that has a unit at its end which is no space is not trimmed to nothing.
trim_start-snoc :
    (d : ℕ) (s : Text) → is_space d ≡ false → is_empty (trim_start (s ++ d ∷ [])) ≡ false
unfolding trim_start
trim_start-snoc d [] h = rw h refl
trim_start-snoc d (c ∷ s) h = elim (Bool-cases (is_space c)) [
  | inl e ↦ rw e (trim_start-snoc d s h)
  | inr e ↦ rw e refl
]

is_empty-snoc : (s : Text) (d : ℕ) → is_empty (s ++ d ∷ []) ≡ false
is_empty-snoc [] d = refl
is_empty-snoc (c ∷ s) d = refl

is_empty-reverse : (s : Text) → is_empty s ≡ false → is_empty (reverse s) ≡ false
is_empty-reverse [] h = cc
is_empty-reverse (c ∷ s) h = rw (reverse-cons c s) (is_empty-snoc (reverse s) c)

is_event-cons : (d : ℕ) (s : Text) → is_space d ≡ false → is_event (d ∷ s) ≡ true
unfolding is_event trim trim_start
is_event-cons d s h = rw h (
    ap not (
      is_empty-reverse (trim_start (reverse (d ∷ s)))
        (rw (reverse-cons d s) (trim_start-snoc d (reverse s) h))))

module _ {J : Type 0} (parse : Text → Option J) (stringify : J → Text) (j : J)
    (one_line : IsLine (stringify j)) (trimmed : trim (32 ∷ stringify j) ≡ stringify j)
    (filled : is_empty (stringify j) ≡ false) (parsed : parse (stringify j) ≡ some j) where
  -- For a value whose JSON text is on one line, has no space around it, is not empty and parses to
  -- the value: the value's frame, pushed at an empty buffer, is one complete frame, the buffer is
  -- empty again, and the data of that frame is the value.
  pub push-frame :
      let body = units "data: " ++ stringify j in
      (push [] (frame parse stringify j) ≡ (body ∷ [], []))
      × (data_of parse stringify body ≡ some j)
  unfolding push data_of payload_of frame is_space starts_with join_lines
  push-frame =
      let line : IsLine (units "data: " ++ stringify j) =
        (refl, (refl, (refl, (refl, (refl, (refl, one_line)))))) in
      (
        rw (cut-line [] (units "data: " ++ stringify j) line) (rw (is_event-cons 100 _ refl) refl),
        rw (lines_from-line [] (units "data: " ++ stringify j) line) (rw (trimmed, filled) parsed),
      )
