-- ===== src/Gateway/Subscriptions.antt =====
-- signals.gateway.ts: the reference counts under the subscribe and unsubscribe handlers.
use ai_trader_api.Base.{
  ℕ, ◌≤◌, ◌≡◌, refl, ◌≢◌, String, true, inl, inr, Option, none, some, arith, ap, ◌∙◌, eq_iff,
  Bool-cases,
}
use ai_trader_api.Base.Dict.{
  Dict, lookup, insert, erase, total, weight_of, total-insert, total-erase,
}
use ai_trader_api.Gateway.{
  Gateway, truthy, is_text, decrement_watcher, watching_of, leave_previous, increment_watcher,
  start_watching, stop_watching,
}
use ai_trader_api.Gateway.Watchers.{
  hits, blank, weigh, watchers, weigh-insert, weigh-erase, IsCounted, count-decrement,
  decrement-HasUniqueKeys, decrement-positive, decrement-client_watching,
}
use ai_trader_api.Gateway.Increments.{
  count-increment, increment-HasUniqueKeys, increment-positive, increment-client_watching,
  count-leave, leave-HasUniqueKeys, leave-positive, leave-client_watching,
}

-- What was watched on a symbol weighs no more than the whole map.
weight_of-le :
    (f : String → String → ℕ) (symbol : String) (w : Dict String)
    → weight_of f symbol (lookup symbol w) ≤ total f w
weight_of-le f symbol w = omega (arith, total-erase f symbol w)

truthy-previous : (o : Option String) → o ≢ some "" → truthy o ≡ o
truthy-previous none h = refl
truthy-previous (some s) h = ground (arith, eq_iff s "")

is_text-eq : (o : Option String) (s : String) → is_text o s ≡ true → o ≡ some s
is_text-eq none s h = cc
is_text-eq (some t) s h = ap some ((eq_iff t s).0 h)

pub truthy-ne : (o : Option String) (s : String) → truthy o ≡ some s → s ≢ ""
truthy-ne none s h = cc
truthy-ne (some t) s h = ground (arith, eq_iff t "")

module _ {J : Type 0} where
  total-le-weigh :
      (f : String → String → ℕ) (client : String) (g : Gateway J)
      → total f (watching_of client g) ≤ weigh f g.client_watching
  total-le-weigh f client g = omega (arith, weigh-erase f client g.client_watching)

  -- No client watches a symbol on the empty exchange.
  previous-ne-empty :
      (client symbol : String) (g : Gateway J)
      → IsCounted g
      → lookup symbol (watching_of client g) ≢ some ""
  previous-ne-empty client symbol g c e =
      let small = weight_of-le blank symbol (watching_of client g) in
      let here = rw e at small in
      absurd (omega (arith, here, total-le-weigh blank client g, c.named))

  -- Switching a client to `exchange` once the previous pair is given back.
  switch-IsCounted :
      (client symbol exchange : String) (g : Gateway J)
      → IsCounted g
      → exchange ≢ ""
      → IsCounted (
          let watching = watching_of client g in
          let left = leave_previous symbol (lookup symbol watching) g in
          increment_watcher symbol exchange (record left {
            client_watching = insert client (insert symbol exchange watching) left.client_watching;
          }))
  switch-IsCounted client symbol exchange g c named =
      let watching = watching_of client g in
      let previous = lookup symbol watching in
      let left = leave_previous symbol previous g in
      let same = leave-client_watching symbol g c.unique previous in
      let moved : Gateway J = record left {
        client_watching = insert client (insert symbol exchange watching) left.client_watching;
      } in
      let stored =
        increment-client_watching symbol exchange moved
        ∙ ap (insert client (insert symbol exchange watching)) same in
      let sums = λ (f : String → String → ℕ).
        weigh-insert f client g.client_watching (insert symbol exchange watching) in
      record {
        unique =
            increment-HasUniqueKeys symbol exchange moved
              (leave-HasUniqueKeys symbol g c.unique previous);
        counted = λ key. omega (
          arith,
          ap (watchers key) stored,
          count-increment symbol exchange key moved,
          count-leave symbol g c.unique previous key,
          c.counted key,
          sums (hits key),
          total-insert (hits key) symbol exchange watching,
          weight_of-le (hits key) symbol watching,
          total-le-weigh (hits key) client g,
        );
        positive = λ key.
            increment-positive symbol exchange key moved
              (leave-positive symbol g c.unique previous key (c.positive key));
        named =
            let fresh : blank symbol exchange ≡ 0 = ground (arith, eq_iff exchange "") in
            omega (
              arith,
              ap (weigh blank) stored,
              fresh,
              c.named,
              sums blank,
              total-insert blank symbol exchange watching,
            );
      }

  -- Storing the map that a client has already changes no count.
  store_map-IsCounted :
      (client : String) (g : Gateway J)
      → IsCounted g
      → IsCounted
          (record g { client_watching = insert client (watching_of client g) g.client_watching })
  store_map-IsCounted client g c = record {
    unique = c.unique;
    counted = λ key. omega (
      arith,
      c.counted key,
      weigh-insert (hits key) client g.client_watching (watching_of client g),
    );
    positive = c.positive;
    named =
        omega (arith, c.named, weigh-insert blank client g.client_watching (watching_of client g));
  }

  pub start_watching-IsCounted :
      (client symbol exchange : String) (g : Gateway J)
      → IsCounted g
      → exchange ≢ ""
      → IsCounted (start_watching client symbol exchange g)
  unfolding start_watching
  start_watching-IsCounted client symbol exchange g c named =
      let watching = watching_of client g in
      let previous = lookup symbol watching in
      elim (Bool-cases (is_text previous exchange)) [
        | inl again ↦ rw again (store_map-IsCounted client g c)
        | inr other ↦ rw other (
            rw (truthy-previous previous (previous-ne-empty client symbol g c))
              (switch-IsCounted client symbol exchange g c named))
      ]

  -- Giving up the pair that a client watches on a symbol.
  give_up-IsCounted :
      (client symbol exchange : String) (g : Gateway J)
      → IsCounted g
      → lookup symbol (watching_of client g) ≡ some exchange
      → IsCounted (
          decrement_watcher symbol exchange (record g {
            client_watching = insert client (erase symbol (watching_of client g)) g.client_watching;
          }))
  give_up-IsCounted client symbol exchange g c e =
      let watching = watching_of client g in
      let moved : Gateway J = record g {
        client_watching = insert client (erase symbol watching) g.client_watching;
      } in
      let stored = decrement-client_watching symbol exchange moved in
      let given = λ (f : String → String → ℕ). ap (weight_of f symbol) e in
      let sums = λ (f : String → String → ℕ).
        weigh-insert f client g.client_watching (erase symbol watching) in
      record {
        unique = decrement-HasUniqueKeys symbol exchange moved c.unique;
        counted = λ key. omega (
          arith,
          ap (watchers key) stored,
          count-decrement symbol exchange key moved c.unique,
          given (hits key),
          c.counted key,
          sums (hits key),
          total-erase (hits key) symbol watching,
          total-le-weigh (hits key) client g,
        );
        positive = λ key. decrement-positive symbol exchange key moved c.unique (c.positive key);
        named = omega (
          arith,
          ap (weigh blank) stored,
          c.named,
          sums blank,
          total-erase blank symbol watching,
        );
      }

  pub stop_watching-IsCounted :
      (client symbol exchange : String) (g : Gateway J)
      → IsCounted g
      → IsCounted (stop_watching client symbol exchange g)
  unfolding stop_watching
  stop_watching-IsCounted client symbol exchange g c =
      let watching = watching_of client g in
      let previous = lookup symbol watching in
      elim (Bool-cases (is_text previous exchange)) [
        | inl mine ↦
            rw mine
              (give_up-IsCounted client symbol exchange g c (is_text-eq previous exchange mine))
        | inr other ↦ rw other c
      ]
