-- ===== src/Gateway/Increments.antt =====
-- signals.gateway.ts: the reference counts after `incrementWatcher`, and after the previous pair of a
-- symbol is given back.
use ai_trader_api.Base.{◌+◌, ◌-◌, ◌≡◌, refl, ◌≢◌, String, Option, none, some, arith, eq_iff}
use ai_trader_api.Base.Dict.{lookup, HasUniqueKeys, lookup-insert, insert-HasUniqueKeys, weight_of}
use ai_trader_api.Gateway.{Gateway, leave_previous, increment_watcher}
use ai_trader_api.Gateway.Pairs.{pair_key}
use ai_trader_api.Gateway.Watchers.{
  hits, count_of, count-decrement, decrement-HasUniqueKeys, decrement-positive,
  decrement-client_watching,
}

module _ {J : Type 0} where
  pub count-increment :
      (symbol exchange key : String) (g : Gateway J)
      → count_of key (increment_watcher symbol exchange g).watcher_counts
        ≡ count_of key g.watcher_counts + hits key symbol exchange
  unfolding increment_watcher
  count-increment symbol exchange key g =
      let k = pair_key symbol exchange in
      ground (
        arith,
        eq_iff k key,
        lookup-insert k key (count_of k g.watcher_counts + 1) g.watcher_counts,
      )

  pub increment-HasUniqueKeys :
      (symbol exchange : String) (g : Gateway J)
      → HasUniqueKeys g.watcher_counts
      → HasUniqueKeys (increment_watcher symbol exchange g).watcher_counts
  unfolding increment_watcher
  increment-HasUniqueKeys symbol exchange g u =
      let k = pair_key symbol exchange in
      ground (arith, insert-HasUniqueKeys k (count_of k g.watcher_counts + 1) g.watcher_counts u)

  pub increment-positive :
      (symbol exchange key : String) (g : Gateway J)
      → lookup key g.watcher_counts ≢ some 0
      → lookup key (increment_watcher symbol exchange g).watcher_counts ≢ some 0
  unfolding increment_watcher
  increment-positive symbol exchange key g p =
      let k = pair_key symbol exchange in
      ground (
        arith,
        eq_iff k key,
        lookup-insert k key (count_of k g.watcher_counts + 1) g.watcher_counts,
      )

  pub increment-client_watching :
      (symbol exchange : String) (g : Gateway J)
      → (increment_watcher symbol exchange g).client_watching ≡ g.client_watching
  unfolding increment_watcher
  increment-client_watching symbol exchange g = ground arith

  -- `g` with the previous pair of the symbol given back.
  module _ (symbol : String) (g : Gateway J) (u : HasUniqueKeys g.watcher_counts) where
    pub count-leave :
        (o : Option String) (key : String)
        → count_of key (leave_previous symbol o g).watcher_counts
          ≡ count_of key g.watcher_counts - weight_of (hits key) symbol o
    count-leave none key = omega arith
    count-leave (some e) key = count-decrement symbol e key g u

    pub leave-HasUniqueKeys :
        (o : Option String) → HasUniqueKeys (leave_previous symbol o g).watcher_counts
    leave-HasUniqueKeys none = u
    leave-HasUniqueKeys (some e) = decrement-HasUniqueKeys symbol e g u

    pub leave-positive :
        (o : Option String) (key : String)
        → lookup key g.watcher_counts ≢ some 0
        → lookup key (leave_previous symbol o g).watcher_counts ≢ some 0
    leave-positive none key p = p
    leave-positive (some e) key p = decrement-positive symbol e key g u p

    pub leave-client_watching :
        (o : Option String) → (leave_previous symbol o g).client_watching ≡ g.client_watching
    leave-client_watching none = refl
    leave-client_watching (some e) = decrement-client_watching symbol e g
