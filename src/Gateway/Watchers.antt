-- ===== src/Gateway/Watchers.antt =====
-- signals.gateway.ts: the reference counts and what the clients watch.
use ai_trader_api.Base.{
  ℕ, ◌+◌, ◌-◌, ◌≡◌, ◌≢◌, String, inl, inr, some, [], ◌∷◌, arith, leb, str_eq, if◌then◌else◌,
  or_else, eq_iff, Bool-cases, Option-cases,
}
use ai_trader_api.Base.Dict.{
  Dict, lookup, insert, erase, HasUniqueKeys, lookup-insert, lookup-erase, insert-HasUniqueKeys,
  erase-HasUniqueKeys, total, weight_of, total-insert, total-erase,
}
use ai_trader_api.Gateway.{
  Gateway, decrement_watcher, decrement_all, handle_disconnect, watching_of,
}
use ai_trader_api.Gateway.Pairs.{pair_key}

-- 1 if watching `symbol` on `exchange` counts under `key`.
abbrev pub hits : String → String → String → ℕ
hits key symbol exchange = if str_eq (pair_key symbol exchange) key then 1 else 0

-- 1 if the exchange is the empty text.
abbrev pub blank : String → String → ℕ
blank symbol exchange = if str_eq exchange "" then 1 else 0

-- A weight of watched pairs, summed over all the clients.
abbrev pub weigh : (String → String → ℕ) → Dict (Dict String) → ℕ
weigh f = total (λ client watching. total f watching)

-- How many watched pairs of the clients count under `key`.
abbrev pub watchers : String → Dict (Dict String) → ℕ
watchers key = weigh (hits key)

abbrev pub count_of : String → Dict ℕ → ℕ
count_of key counts = or_else (lookup key counts) 0

module _ (f : String → String → ℕ) (client : String) (clients : Dict (Dict String)) where
  weight_of-or_else :
      weight_of (λ client watching. total f watching) client (lookup client clients)
      ≡ total f (or_else (lookup client clients) [])
  weight_of-or_else = elim (Option-cases (lookup client clients)) [
    | inl e ↦ rw e
    | inr (w, e) ↦ rw e
  ]

  pub weigh-insert :
      (w : Dict String)
      → weigh f (insert client w clients) + total f (or_else (lookup client clients) [])
        ≡ weigh f clients + total f w
  weigh-insert w = omega (
    arith,
    total-insert (λ client watching. total f watching) client w clients,
    weight_of-or_else,
  )

  pub weigh-erase :
      weigh f (erase client clients) + total f (or_else (lookup client clients) [])
      ≡ weigh f clients
  weigh-erase =
      omega
        (arith, total-erase (λ client watching. total f watching) client clients, weight_of-or_else)

module _ {J : Type 0} where
  -- The counts are those of `rest` and of the clients' maps together: `rest` is what a disconnected
  -- client watched and the loop of `handleDisconnect` has yet to give back.
  pub record Owes (rest : Dict String) (g : Gateway J) : Type 0 where
    pub unique : HasUniqueKeys g.watcher_counts
    pub counted :
        (key : String)
        → count_of key g.watcher_counts ≡ watchers key g.client_watching + total (hits key) rest
    pub positive : (key : String) → lookup key g.watcher_counts ≢ some 0
    pub named : weigh blank g.client_watching ≡ 0

  -- The invariant between two messages: every count is the number of pairs watched under its key,
  -- no entry is zero, and no watched exchange is the empty text.
  pub record IsCounted (g : Gateway J) : Type 0 where
    pub unique : HasUniqueKeys g.watcher_counts
    pub counted : (key : String) → count_of key g.watcher_counts ≡ watchers key g.client_watching
    pub positive : (key : String) → lookup key g.watcher_counts ≢ some 0
    pub named : weigh blank g.client_watching ≡ 0

  pub count-decrement :
      (symbol exchange key : String) (g : Gateway J)
      → HasUniqueKeys g.watcher_counts
      → count_of key (decrement_watcher symbol exchange g).watcher_counts
        ≡ count_of key g.watcher_counts - hits key symbol exchange
  unfolding decrement_watcher
  count-decrement symbol exchange key g u =
      let k = pair_key symbol exchange in
      ground (
        arith,
        eq_iff k key,
        lookup-erase k key g.watcher_counts u,
        lookup-insert k key (count_of k g.watcher_counts - 1) g.watcher_counts,
      )

  pub decrement-HasUniqueKeys :
      (symbol exchange : String) (g : Gateway J)
      → HasUniqueKeys g.watcher_counts
      → HasUniqueKeys (decrement_watcher symbol exchange g).watcher_counts
  unfolding decrement_watcher
  decrement-HasUniqueKeys symbol exchange g u =
      let k = pair_key symbol exchange in
      elim (Bool-cases (leb (count_of k g.watcher_counts) 1)) [
        | inl e ↦ rw e (erase-HasUniqueKeys k g.watcher_counts u)
        | inr e ↦ rw e (insert-HasUniqueKeys k _ g.watcher_counts u)
      ]

  pub decrement-positive :
      (symbol exchange key : String) (g : Gateway J)
      → HasUniqueKeys g.watcher_counts
      → lookup key g.watcher_counts ≢ some 0
      → lookup key (decrement_watcher symbol exchange g).watcher_counts ≢ some 0
  unfolding decrement_watcher
  decrement-positive symbol exchange key g u p =
      let k = pair_key symbol exchange in
      ground (
        arith,
        eq_iff k key,
        lookup-erase k key g.watcher_counts u,
        lookup-insert k key (count_of k g.watcher_counts - 1) g.watcher_counts,
      )

  pub decrement-client_watching :
      (symbol exchange : String) (g : Gateway J)
      → (decrement_watcher symbol exchange g).client_watching ≡ g.client_watching
  unfolding decrement_watcher
  decrement-client_watching symbol exchange g = ground arith

  -- One round of the loop pays for one pair.
  decrement-Owes :
      (symbol exchange : String) (rest : Dict String) (g : Gateway J)
      → Owes ((symbol, exchange) ∷ rest) g
      → Owes rest (decrement_watcher symbol exchange g)
  decrement-Owes symbol exchange rest g o = record {
    unique = decrement-HasUniqueKeys symbol exchange g o.unique;
    counted = λ key.
        rw (decrement-client_watching symbol exchange g)
          (omega (arith, count-decrement symbol exchange key g o.unique, o.counted key));
    positive = λ key. decrement-positive symbol exchange key g o.unique (o.positive key);
    named = rw (decrement-client_watching symbol exchange g) o.named;
  }

  pub decrement_all-Owes :
      (rest : Dict String) (g : Gateway J) → Owes rest g → Owes [] (decrement_all rest g)
  unfolding decrement_all
  decrement_all-Owes [] g o = o
  decrement_all-Owes ((symbol, exchange) ∷ rest) g o =
      decrement_all-Owes rest (decrement_watcher symbol exchange g)
        (decrement-Owes symbol exchange rest g o)

  pub Owes-IsCounted : (g : Gateway J) → Owes [] g → IsCounted g
  Owes-IsCounted g o = record {
    unique = o.unique;
    counted = λ key. omega (arith, o.counted key);
    positive = o.positive;
    named = o.named;
  }

  -- Taking a client out leaves its whole map to be given back.
  erase-Owes :
      (client : String) (g : Gateway J)
      → IsCounted g
      → Owes (watching_of client g) (record g { client_watching = erase client g.client_watching })
  erase-Owes client g c = record {
    unique = c.unique;
    counted = λ key. omega (arith, weigh-erase (hits key) client g.client_watching, c.counted key);
    positive = c.positive;
    named = omega (arith, weigh-erase blank client g.client_watching, c.named);
  }

  pub handle_disconnect-IsCounted :
      (client : String) (g : Gateway J) → IsCounted g → IsCounted (handle_disconnect client g)
  unfolding handle_disconnect
  handle_disconnect-IsCounted client g c =
      let o = erase-Owes client g c in
      elim (Option-cases (lookup client g.client_watching)) [
        | inl e ↦ rw (e, handle_disconnect) (Owes-IsCounted _ (rw e at o))
        | inr (w, e) ↦
            rw (e, handle_disconnect) (Owes-IsCounted _ (decrement_all-Owes w _ (rw e at o)))
      ]
