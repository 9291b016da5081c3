-- ===== src/Sse/Chunks.antt =====
-- sse.ts: `SseFrames.push` on the chunks of a stream.
use mathlib.Core.List.{append-nil, append_assoc}
use ai_trader_api.Base.{
  ℕ, ◌≡◌, ◌≢◌, refl, sym, ap, ◌∙◌, Bool, false, inl, inr, ◌&&◌, List, [], ◌∷◌, ◌++◌, ◌==◌, filter,
  Bool-cases, ⊤,
}
use ai_trader_api.Base.Text.{Text}
use ai_trader_api.Sse.{newline, cut, push, is_event}

-- Whether a separator starts a text.
abbrev is_boundary : Text → Bool
is_boundary [] = false
is_boundary (a ∷ []) = false
is_boundary (a ∷ b ∷ s) = a == newline && b == newline

-- No separator starts within `current` when `s` follows it.
abbrev IsClean : Text → Text → Type 0
IsClean [] s = ⊤
IsClean (a ∷ current) s = (is_boundary (a ∷ (current ++ s)) ≡ false) × IsClean current s

-- A clean text is passed over.
cut-clean :
    (before current s : Text)
    → IsClean current s
    → s ≢ []
    → cut before (current ++ s) ≡ cut (before ++ current) s
unfolding cut
cut-clean before [] s h n = rw append-nil
cut-clean before (a ∷ []) [] h n = absurd (n refl)
cut-clean before (a ∷ []) (b ∷ s) h n = rw (h.0, cut)
cut-clean before (a ∷ b ∷ current) s h n =
    rw (h.0, cut)
      (cut-clean (before ++ a ∷ []) (b ∷ current) s h.1 n
        ∙ ap (λ t. cut t s) (append_assoc before (a ∷ []) (b ∷ current)))

-- The parts of a text and the text behind them, continued by another text.
abbrev continue_with : List Text × Text → Text → List Text × Text
continue_with (parts, rest) s = let (more, rest') = cut [] (rest ++ s) in (parts ++ more, rest')

abbrev put_first : Text → List Text × Text → List Text × Text
put_first part (parts, rest) = (part ∷ parts, rest)

IsClean-snoc :
    (current : Text) (a b : ℕ) (s : Text)
    → IsClean current (a ∷ b ∷ s)
    → is_boundary (a ∷ b ∷ s) ≡ false
    → IsClean (current ++ a ∷ []) (b ∷ s)
IsClean-snoc [] a b s h e = (e, tt)
IsClean-snoc (c ∷ []) a b s h e = (h.0, (e, tt))
IsClean-snoc (c ∷ d ∷ current) a b s h e = (h.0, IsClean-snoc (d ∷ current) a b s h.1 e)

-- Cleanness looks at the first unit of what follows only.
IsClean-head : (current s t : Text) (a : ℕ) → IsClean current (a ∷ s) → IsClean current (a ∷ t)
IsClean-head [] s t a h = tt
IsClean-head (c ∷ []) s t a h = (h.0, tt)
IsClean-head (c ∷ d ∷ current) s t a h = (h.0, IsClean-head (d ∷ current) s t a h.1)

cut-append_from :
    (current : Text) (a : ℕ) (s t : Text)
    → IsClean current (a ∷ s)
    → cut current ((a ∷ s) ++ t) ≡ continue_with (cut current (a ∷ s)) t
unfolding cut
cut-append_from current a [] t h = sym (
    ap (cut []) (append_assoc current (a ∷ []) t)
    ∙ cut-clean [] current (a ∷ t) (IsClean-head current [] t a h) λ e. cc)
cut-append_from current a (b ∷ []) t h = elim (Bool-cases (a == newline && b == newline)) [
  | inl e ↦ rw (e, cut)
  | inr e ↦
      rw (e, cut) (cut-append_from (current ++ a ∷ []) b [] t (IsClean-snoc current a b [] h e))
]
cut-append_from current a (b ∷ c ∷ s) t h = elim (Bool-cases (a == newline && b == newline)) [
  | inl e ↦ rw (e, cut) (ap (put_first current) (cut-append_from [] c s t tt))
  | inr e ↦
      rw (e, cut)
        (cut-append_from (current ++ a ∷ []) b (c ∷ s) t (IsClean-snoc current a b (c ∷ s) h e))
]

cut-append : (s t : Text) → cut [] (s ++ t) ≡ continue_with (cut [] s) t
unfolding cut
cut-append [] t = refl
cut-append (a ∷ s) t = cut-append_from [] a s t tt

filter-append {ℓ} :
    {A : Type ℓ} (p : A → Bool) (xs ys : List A) → filter p (xs ++ ys) ≡ filter p xs ++ filter p ys
filter-append p [] ys = refl
filter-append p (x ∷ xs) ys = elim (Bool-cases (p x)) [
  | inl e ↦ rw e (ap (◌∷◌ x) (filter-append p xs ys))
  | inr e ↦ rw e (filter-append p xs ys)
]

-- Feeding two chunks one after the other gives the frames, and leaves the buffer, that feeding them
-- as one chunk does.
push_chunks :
    (buffer first second : Text)
    → let (frames, rest) = push buffer first in
      let (more, rest') = push rest second in
      (frames ++ more, rest') ≡ push buffer (first ++ second)
unfolding push
push_chunks buffer first second = sym (
    ap (λ (t : List Text × Text). (filter is_event t.0, t.1))
      (ap (cut []) (sym (append_assoc buffer first second)) ∙ cut-append (buffer ++ first) second)
    ∙ ap (λ fs. (fs, (continue_with (cut [] (buffer ++ first)) second).1))
        (filter-append is_event (cut [] (buffer ++ first)).0 _))

-- The chunks of a stream, pushed in turn: all the frames, and the buffer left.
unfoldable pub feed : Text → List Text → List Text × Text
feed buffer [] = ([], buffer)
feed buffer (chunk ∷ chunks) =
    let (frames, rest) = push buffer chunk in
    let (more, rest') = feed rest chunks in (frames ++ more, rest')

abbrev feed_after : List Text → List Text × Text → List Text × Text
feed_after chunks (frames, rest) = (frames ++ (feed rest chunks).0, (feed rest chunks).1)

abbrev pub joined : Text → List Text → Text
joined first [] = first
joined first (chunk ∷ chunks) = joined (first ++ chunk) chunks

-- However a stream of at least one chunk is cut, the frames and the buffer are those of pushing
-- the whole stream at once.
pub feed-eq-push :
    (buffer first : Text) (chunks : List Text)
    → feed buffer (first ∷ chunks) ≡ push buffer (joined first chunks)
unfolding feed
feed-eq-push buffer first [] =
    ap (λ (t : List Text). (t, (push buffer first).1)) (append-nil (push buffer first).0)
feed-eq-push buffer first (chunk ∷ chunks) =
    let r = push (push buffer first).1 chunk in
    ap (λ (fs : List Text). (fs, (feed r.1 chunks).1))
      (sym (append_assoc (push buffer first).0 r.0 (feed r.1 chunks).0))
    ∙ ap (feed_after chunks) (push_chunks buffer first chunk)
    ∙ feed-eq-push buffer (first ++ chunk) chunks
