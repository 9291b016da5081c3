-- ===== src/Signals.antt =====
-- src/signals/signals.service.ts with signal.mapper.ts and schemas/signal.schema.ts: storing the
-- signals that the signals service publishes, and their performance. A text that is read as a date is
-- given by `parse_date`, `none` for one that is no date; `num` are JavaScript numbers.
pub mod Persisting
pub mod Performance
mod Tests
use ai_trader_api.Base.{
  ℕ, ◌≡◌, ◌-◌, String, Bool, true, false, ◌&&◌, ◌||◌, Option, none, some, List, [], ◌∷◌, ◌++◌, map,
  filter, any, length, leb, ◌==◌, str_eq, if◌then◌else◌, or_else,
}
use ai_trader_api.Base.Dict.{Dict, lookup}
use ai_trader_api.Base.Double.{Double}
use ai_trader_api.Base.Action.{Result, ok, err, Action}
use ai_trader_api.Portfolio.Accounts.{sum_from}
use ai_trader_api.Evaluation.{
  Kind, target_hit, stop_hit, still_open, no_data, is_target_hit, is_stop_hit, SignalOutcome,
  UpstreamOutcome, Bucket, DedupeCandidate, PerformanceStats, dedupe_window_ms, index_outcomes,
  is_duplicate_setup, bucket_by,
}

module _ (N J : Type 0) where
  pub record SignalMessage : Type 0 where
    pub symbol : String
    pub exchange : Option String
    pub direction : String
    pub entry_price : N
    pub target_price : N
    pub stop_loss : N
    pub confidence : N
    pub reasoning : Option String
    pub indicators : Option J
    pub generated_at : Option String

  -- What `create` is given; `generated_at` is `none` where it is no date.
  pub record NewSignal : Type 0 where
    pub symbol : String
    pub exchange : String
    pub direction : String
    pub entry_price : N
    pub target_price : N
    pub stop_loss : N
    pub confidence : N
    pub reasoning : Option String
    pub indicators : Option J
    pub generated_at : Option ℕ

  -- A stored document: its id, what it was created from, and when.
  pub record Signal : Type 0 where
    pub id : String
    pub fields : NewSignal
    pub created_at : ℕ

-- What `create` throws: code 11000, and anything else.
pub data CreateError : Type 0 where
  duplicate_key other_error : CreateError

-- The queries of the signal collection. `find_newest` is
-- `find(p).sort({ createdAt: -1 }).limit(n)`.
pub record SignalStore (S N J : Type 0) : Type 0 where
  pub find : (Signal N J → Bool) → S → List (Signal N J)
  pub find_newest : (Signal N J → Bool) → ℕ → S → List (Signal N J)
  pub create : NewSignal N J → ℕ → S → Result CreateError (Signal N J) × S

abbrev pub same_instant : Option ℕ → Option ℕ → Bool
same_instant (some a) (some b) = a == b
same_instant none none = true
same_instant (some a) none = false
same_instant none (some b) = false

-- The unique index.
abbrev pub same_signal : {N J : Type 0} → NewSignal N J → Signal N J → Bool
same_signal n s =
    str_eq s.fields.symbol n.symbol
    && (same_instant s.fields.generated_at n.generated_at && str_eq s.fields.direction n.direction)

-- What the service relies on: a document that is created is there, with what it was created from, and
-- one that the unique index forbids is the duplicate-key error.
pub record IsSignalStore {S N J : Type 0} (c : SignalStore S N J) : Type 0 where
  pub docs : S → List (Signal N J)
  pub created :
      (n : NewSignal N J) (now : ℕ) (s s' : S) (d : Signal N J)
      → c.create n now s ≡ (ok d, s')
      → (docs s' ≡ docs s ++ d ∷ []) × (d.fields ≡ n)
  pub clash :
      (n : NewSignal N J) (now : ℕ) (s : S)
      → any (same_signal n) (docs s) ≡ true
      → c.create n now s ≡ (err duplicate_key, s)

-- The collection, and what was broadcast to all clients, oldest first.
pub record World (S N J : Type 0) : Type 0 where
  pub store : S
  pub broadcast : List (Signal N J)

-- A text that is empty counts as missing.
abbrev pub date_of : (String → Option ℕ) → Option String → ℕ → Option ℕ
date_of parse_date none now = some now
date_of parse_date (some text) now = if str_eq text "" then some now else parse_date text

module _ {N J : Type 0} (parse_date : String → Option ℕ) where
  -- `toSignalDocument`; `no_indicators` is `{}`.
  pub to_signal_document : J → SignalMessage N J → ℕ → NewSignal N J
  to_signal_document no_indicators payload now = record {
    symbol = payload.symbol;
    exchange = or_else payload.exchange "NSE";
    direction = payload.direction;
    entry_price = payload.entry_price;
    target_price = payload.target_price;
    stop_loss = payload.stop_loss;
    confidence = payload.confidence;
    reasoning = payload.reasoning;
    indicators = some (or_else payload.indicators no_indicators);
    generated_at = date_of parse_date payload.generated_at now;
  }

module _ {S N J : Type 0} where
  -- The end of `persistSignal`, of what `create` gave.
  abbrev pub publish :
      List (Signal N J)
      → Result CreateError (Signal N J) × S
      → Result CreateError (Option (Signal N J)) × World S N J
  publish sent (ok d, s) = (ok (some d), record { store = s; broadcast = sent ++ d ∷ [] })
  publish sent (err duplicate_key, s) = (ok none, record { store = s; broadcast = sent })
  publish sent (err other_error, s) = (err other_error, record { store = s; broadcast = sent })

module _ {S N J : Type 0} (signals : SignalStore S N J) (num : Double N) (abs : N → N)
    (tolerance : N) (parse_date : String → Option ℕ) (no_indicators : J) where
  abbrev pub candidate_of : NewSignal N J → DedupeCandidate N
  candidate_of doc = record {
    symbol = doc.symbol;
    direction = doc.direction;
    entry_price = doc.entry_price;
    generated_at = doc.generated_at;
  }

  -- `r.generatedAt ?? r.createdAt`
  abbrev pub prior_of : Signal N J → DedupeCandidate N
  prior_of r = record (candidate_of r.fields) {
    generated_at = some (or_else r.fields.generated_at r.created_at);
  }

  -- The query for what the candidate may restate.
  abbrev pub is_recent : NewSignal N J → ℕ → Signal N J → Bool
  is_recent doc now r =
      str_eq r.fields.symbol doc.symbol
      && (str_eq r.fields.direction doc.direction && leb (now - dedupe_window_ms) r.created_at)

  abbrev pub is_restatement : NewSignal N J → ℕ → S → Bool
  is_restatement doc now s =
      is_duplicate_setup num abs (candidate_of doc)
        (map prior_of (signals.find (is_recent doc now) s)) dedupe_window_ms tolerance

  -- `persistSignal`; `none` is a signal that is not stored again.
  pub persist_signal :
      SignalMessage N J → ℕ → Action CreateError (World S N J) (Option (Signal N J))
  persist_signal payload now w =
      let doc = to_signal_document parse_date no_indicators payload now in
      if is_restatement doc now w.store
      then (ok none, w)
      else publish w.broadcast (signals.create doc now w.store)
