-- ===== src/Chat/Sessions.antt =====
-- chat-sessions.service.ts: recording a turn twice, and whose conversation a turn joins.
use ai_trader_api.Base.{
  ℕ, is_some, ◌≡◌, ◌≢◌, refl, ap, ◌∙◌, ◌+◌, ◌<◌, ◌⊎◌, inl, inr, String, Bool, true, false, none,
  some, List, [], ◌∷◌, ◌++◌, ltb, str_eq, find?, arith, Bool-cases, Option-cases, eq_iff,
}
use mathlib.Core.Option
use ai_trader_api.Base.Collection.{update_first}
use ai_trader_api.Base.Updates.{find?-update_first, find?-holds}
use ai_trader_api.Chat.{
  ChatTurn, UpstreamTurn, TurnStore, Ambient, has_turn_id, is_about, record_turn, new_turn,
  resolve_session_id, session_gap_ms,
}

-- What `timestamps: true` does to a turn that is updated.
abbrev pub touched : {J : Type 0} → ℕ → ChatTurn J → ChatTurn J
touched now t = record t { updated_at = now }

-- What the services rely on: an upsert answers the turn with the id if there is one, of which it sets
-- the time of the last update, and stores the new one otherwise; and the newest turn of a query is one
-- of the turns that meet it.
pub record IsTurnStore {S J : Type 0} (c : TurnStore S J) : Type 0 where
  pub docs : S → List (ChatTurn J)
  pub set_present :
      (id : String) (t u : ChatTurn J) (s : S)
      → find? (has_turn_id id) (docs s) ≡ some u
      → ((c.set_on_insert id t s).0 ≡ touched t.updated_at u)
        × (docs (c.set_on_insert id t s).1
            ≡ update_first (has_turn_id id) (touched t.updated_at) (docs s))
  pub set_absent :
      (id : String) (t : ChatTurn J) (s : S)
      → find? (has_turn_id id) (docs s) ≡ none
      → ((c.set_on_insert id t s).0 ≡ t) × (docs (c.set_on_insert id t s).1 ≡ docs s ++ t ∷ [])
  pub newest_meets :
      (p : ChatTurn J → Bool) (s : S) (t : ChatTurn J) → c.find_newest p s ≡ some t → p t ≡ true

module _ {S J : Type 0} (turns : TurnStore S J) (upper : String → String) (env : Ambient) where
  found-last :
      (id : String) (t : ChatTurn J) (ts : List (ChatTurn J))
      → find? (has_turn_id id) ts ≡ none
      → has_turn_id id t ≡ true
      → find? (has_turn_id id) (ts ++ t ∷ []) ≡ some t
  found-last id t [] none_yet own = rw own refl
  found-last id t (u ∷ ts) none_yet own = ground (arith, found-last id t ts)

  module _ (c : IsTurnStore turns) (user question id : String) (result : UpstreamTurn J)
      (named : result.turn_id ≡ some id) (real : id ≢ "") where
    is_real : str_eq id "" ≡ false
    is_real = ground (arith, eq_iff id "")

    -- Once a turn with the id is stored, a turn that comes under it is answered with the stored one, of
    -- which only the time of the last update is new.
    stored_is_touched :
        (t u : ChatTurn J) (s : S)
        → find? (has_turn_id id) (c.docs s) ≡ some u
        → find? (has_turn_id id) (c.docs (turns.set_on_insert id t s).1)
          ≡ some (touched t.updated_at u)
    stored_is_touched t u s e =
        ap (find? (has_turn_id id)) (c.set_present id t u s e).1
        ∙ find?-update_first (has_turn_id id) (touched t.updated_at) (c.docs s) u e
            (find?-holds (has_turn_id id) (λ x. x) (c.docs s) u e)

    -- After a turn with an id is recorded, whatever turn comes later under the same id is answered with
    -- the turn recorded first, of which only the time of the last update is new; and nothing else is
    -- written.
    pub second_report_keeps_first :
        (force_new : Bool) (s : S) (later : Ambient) (user' question' : String)
        (result' : UpstreamTurn J) (force_new' : Bool)
        → result'.turn_id ≡ some id
        → let (first, s') = record_turn turns upper env user question result force_new s in
          let (second, s'') = record_turn turns upper later user' question' result' force_new' s' in
          (is_some first ≡ true)
          × (second ≡ Option.map {A = ChatTurn J} (λ t. record t { updated_at = later.now }) first)
          × (c.docs s''
              ≡ update_first
                  (has_turn_id id)
                  (λ t. record t { updated_at = later.now })
                  (c.docs s'))
    unfolding record_turn
    second_report_keeps_first force_new s later user' question' result' force_new' named' =
        let t = new_turn turns upper env id user question result force_new s in
        let s' = (turns.set_on_insert id t s).1 in
        let t' = new_turn turns upper later id user' question' result' force_new' s' in
        elim (Option-cases (find? (has_turn_id id) (c.docs s))) [
          | inr (u, e) ↦
              let (answer, grown) = c.set_present id t u s e in
              let (answer', grown') =
                c.set_present id t' (touched env.now u) s' (stored_is_touched t u s e) in
              rw (named, named', is_real) (rw (answer, answer') (refl, refl, grown'))
          | inl e ↦
              let (answer, grown) = c.set_absent id t s e in
              let present =
                ap (find? (has_turn_id id)) grown
                ∙ found-last id t (c.docs s) e (ground (arith, eq_iff id id)) in
              let (answer', grown') = c.set_present id t' t s' present in
              rw (named, named', is_real) (rw (answer, answer') (refl, refl, grown'))
        ]

    -- A turn with an id that is not yet recorded is added at the end.
    pub new_report_is_added :
        (force_new : Bool) (s : S)
        → find? (has_turn_id id) (c.docs s) ≡ none
        → c.docs (record_turn turns upper env user question result force_new s).1
          ≡ c.docs s ++ new_turn turns upper env id user question result force_new s ∷ []
    unfolding record_turn
    new_report_is_added force_new s absent =
        rw (named, is_real)
          (c.set_absent id (new_turn turns upper env id user question result force_new s) s
            absent).1

  -- The conversation a turn joins is new, or that of a turn of the same user about the same symbol
  -- less than two hours old.
  pub session_is_own :
      (c : IsTurnStore turns) (user symbol : String) (force_new : Bool) (s : S)
      → let session = resolve_session_id turns upper env user symbol force_new s in
        (session ≡ env.fresh_id)
        ⊎ ((t : ChatTurn J) × (t.session_id ≡ session)
            × (t.user_id ≡ user)
            × (t.symbol ≡ symbol)
            × (env.now < t.created_at + session_gap_ms))
  unfolding resolve_session_id
  session_is_own c user symbol true s = inl refl
  session_is_own c user symbol false s =
      elim (Option-cases (turns.find_newest (is_about user symbol) s)) [
        | inl e ↦ inl (rw e refl)
        | inr (t, e) ↦
            let meets = c.newest_meets (is_about user symbol) s t e in
            elim (Bool-cases (ltb env.now (t.created_at + session_gap_ms))) [
              | inr old ↦ inl (rw (e, old) refl)
              | inl young ↦ inr (
                t,
                rw (e, young) refl,
                ground (arith, eq_iff t.user_id user),
                ground (arith, eq_iff t.symbol symbol),
                ground arith,
              )
            ]
      ]
