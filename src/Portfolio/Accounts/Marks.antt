-- ===== src/Portfolio/Accounts/Marks.antt =====
-- portfolio-accounts.service.ts: what a refresh of the prices reports.
use ai_trader_api.Base.{
  ◌≡◌, refl, ap, ◌+◌, inl, inr, String, Bool, true, false, List, [], ◌∷◌, str_eq, length, filter,
  arith, any, All, All-mono, All-filter, ◌==◌, ◌||◌, ◌∙◌, ==_iff, Bool-cases,
}
use mathlib.Core.List
use ai_trader_api.Base.Action.{ok, err, Result-cases}
use ai_trader_api.Base.Collection.{IsLawful}
use ai_trader_api.Base.Updates.{any-find?, any-update_first}
use ai_trader_api.Portfolio.{Position, Db, World, same_position}
use ai_trader_api.Portfolio.Execution.{Env, write_position, save_position}
use ai_trader_api.Portfolio.Accounts.{marked, refresh_one, refresh_each, refresh_position_prices}

module _ {N P Q O T : Type 0} (db : Db N P Q O T) (env : Env N) where
  abbrev pub no_quote : Position N → Bool
  no_quote p = elim (env.quote p.symbol p.exchange) [ ok _ ↦ false | err _ ↦ true ]

  abbrev pub not_marked : Position N → Bool
  not_marked p = no_quote p || env.fails write_position

  positions-All : (ps : List (Position N)) → All (λ p. any (λ q. q.id == p.id) ps ≡ true) ps
  positions-All [] = tt
  positions-All (p ∷ ps) =
      (ground (arith, ==_iff p.id p.id), All-mono ps (λ q h. ground (arith, h)) (positions-All ps))

  refresh_each-count :
      (ps : List (Position N)) (w : World N P Q O T)
      → (refresh_each db env ps w).0.refreshed + length (refresh_each db env ps w).0.stale_symbols
        ≡ length ps
  unfolding refresh_each
  refresh_each-count [] w = refl
  refresh_each-count (p ∷ ps) w = elim (Result-cases (refresh_one db env p w).0) [
    | inl (r, e) ↦ rw e (omega (arith, refresh_each-count ps (refresh_one db env p w).1))
    | inr (r, e) ↦ rw e (omega (arith, refresh_each-count ps (refresh_one db env p w).1))
  ]

  module _ (lq : IsLawful same_position db.positions) where
    -- The documents hold one with the id of the position.
    abbrev IsThere : Q → Position N → Type 0
    IsThere positions p = any (λ q. q.id == p.id) (lq.docs positions) ≡ true

    save_position-ok :
        (p : Position N) (w : World N P Q O T)
        → IsThere w.positions p
        → save_position db env p w ≡ (
          ok tt,
          record w {
            positions =
                (db.positions.find_one_and_update (λ q. q.id == p.id) (λ _. p) w.positions).1;
          },
        )
    save_position-ok p w there =
        let (x, found) = any-find? (λ q. q.id == p.id) (lq.docs w.positions) there in
        rw (save_position, lq.updated (λ q. q.id == p.id) (λ _. p) w.positions) (rw found refl)

    IsThere-save :
        (p q : Position N) (positions : Q)
        → IsThere positions q
        → IsThere (db.positions.find_one_and_update (λ x. x.id == p.id) (λ _. p) positions).1 q
    IsThere-save p q positions there =
        ap (any (λ x. x.id == q.id)) (lq.docs-update (λ x. x.id == p.id) (λ _. p) positions)
        ∙ any-update_first (λ x. x.id == p.id) (λ x. x.id == q.id) (λ _. p)
            (λ x e. rw ((==_iff x.id p.id).0 e) refl) (lq.docs positions)
        ∙ there

    -- The symbols of the positions that are not marked: no price came, or the write failed.
    refresh_each-stale :
        (ps : List (Position N)) (w : World N P Q O T)
        → All (IsThere w.positions) ps
        → (refresh_each db env ps w).0.stale_symbols
          ≡ List.map (λ p. p.symbol) (filter not_marked ps)
    unfolding refresh_each refresh_one
    refresh_each-stale [] w there = refl
    refresh_each-stale (p ∷ ps) w (here, there) =
        elim (Result-cases (env.quote p.symbol p.exchange)) [
          | inr (r, e) ↦ rw (no_quote, e) (ap (◌∷◌ p.symbol) (refresh_each-stale ps w there))
          | inl (ltp, e) ↦ elim (Bool-cases (env.fails write_position)) [
            | inl fails ↦
                rw (no_quote, e, fails) (ap (◌∷◌ p.symbol) (refresh_each-stale ps w there))
            | inr writes ↦
                let saved = save_position-ok (marked db env ltp p) w here in
                rw (no_quote, e, writes, saved)
                  (refresh_each-stale ps _
                    (All-mono ps (λ q. IsThere-save (marked db env ltp p) q w.positions) there))
          ]
        ]

    -- A refresh reports every position of the user once, as refreshed or as stale; and the stale
    -- symbols are, in the order of the positions, those for which no price came, or all of them where
    -- the database takes no write of a position.
    pub refresh_reports_every_position :
        (user : String) (w : World N P Q O T)
        → let positions = db.positions.find (λ p. str_eq p.user_id user) w.positions in
          let r = (refresh_position_prices db env user w).0 in
          (r.refreshed + r.stale ≡ length positions)
          × (r.stale_symbols ≡ List.map (λ p. p.symbol) (filter not_marked positions))
    unfolding refresh_position_prices
    refresh_reports_every_position user w = (
      refresh_each-count _ w,
      refresh_each-stale _ w (
          rw (lq.find_lem (λ p. str_eq p.user_id user) w.positions) (
            All-filter _ (λ p. str_eq p.user_id user) (lq.docs w.positions)
              (positions-All (lq.docs w.positions)))),
    )
