-- ===== src/Gateway/Pairs.antt =====
-- The keys of `watcherCounts`, and how `getActiveSymbols` takes them apart.
use Prim.Native.Char.{Char, code}
use Prim.Native.String
use text.Mathlib.TextLemmas.{nil-append, cons-append}
use ai_trader_api.Base.{
  String, ◌≡◌, refl, ◌≢◌, Option, none, some, arith, ◌==◌, if◌then◌else◌, ap, ◌∙◌,
}

-- `${symbol}:${exchange}`
unfoldable pub pair_key : String → String → String
pair_key symbol exchange = String.◌++◌ symbol (String.◌++◌ ":" exchange)

-- The text up to the last colon, and the text behind it.
pub split_last : String → Option (String × String)
split_last String.[] = none
split_last (String.◌∷◌ c s) = elim (split_last s) [
  | some (before, after) ↦ some (String.◌∷◌ c before, after)
  | none ↦ if code c == b':' then some ("", s) else none
]

-- `s.slice(0, -1)`
abbrev but_last : String → String
but_last String.[] = ""
but_last (String.◌∷◌ c String.[]) = ""
but_last (String.◌∷◌ c (String.◌∷◌ d s)) = String.◌∷◌ c (but_last (String.◌∷◌ d s))

-- With no colon `lastIndexOf` answers -1, so the slices are `slice(0, -1)` and `slice(0)`.
unfoldable pub split_pair : String → String × String
unfolding split_last
split_pair key = elim (split_last key) [ none ↦ (but_last key, key) | some p ↦ p ]

abbrev pub NoColon : String → Type 0
NoColon String.[] = Unit
NoColon (String.◌∷◌ c s) = (code c ≢ b':') × NoColon s

split_last-none : (s : String) → NoColon s → split_last s ≡ none
unfolding split_last
split_last-none String.[] h = refl
split_last-none (String.◌∷◌ c s) (p, h) = rw (split_last-none s h) (ground arith)

split_last-cons :
    (c : Char) (s : String) {p : String × String}
    → split_last s ≡ some p
    → split_last (String.◌∷◌ c s) ≡ some (String.◌∷◌ c p.0, p.1)
unfolding split_last
split_last-cons c s e = rw (e, split_last)

split_last-pair_key :
    (symbol exchange : String)
    → NoColon exchange
    → split_last (pair_key symbol exchange) ≡ some (symbol, exchange)
unfolding split_last pair_key
split_last-pair_key String.[] exchange h =
    let colon : String.◌++◌ ":" exchange ≡ String.◌∷◌ ":" exchange =
      cons-append ":" "" exchange ∙ ap (String.◌∷◌ ":") (nil-append exchange) in
    rw (nil-append, colon) (rw (split_last-none exchange h, split_last))
split_last-pair_key (String.◌∷◌ c s) exchange h =
    rw cons-append (split_last-cons c (pair_key s exchange) (split_last-pair_key s exchange h))

-- If an exchange has no colon, `getActiveSymbols` reads the symbol and the exchange back from their
-- key, also where the symbol has colons.
pub split_pair-pair_key :
    (symbol exchange : String)
    → NoColon exchange
    → split_pair (pair_key symbol exchange) ≡ (symbol, exchange)
unfolding split_pair
split_pair-pair_key symbol exchange h = rw (split_last-pair_key symbol exchange h, split_pair)
