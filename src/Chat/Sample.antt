-- ===== src/Chat/Sample.antt =====
-- A list of turns as the turn collection, for the runs in the modules named Tests. The newest turn
-- stands first.
use ai_trader_api.Base.{◌≡◌, refl, String, none, some, List, [], ◌∷◌, ◌++◌, find?, filter}
use ai_trader_api.Base.Collection.{update_first}
use ai_trader_api.Base.Updates.{find?-holds}
use ai_trader_api.Chat.{ChatTurn, TurnStore, has_turn_id}
use ai_trader_api.Chat.Sessions.{IsTurnStore, touched}

module _ {J : Type 0} where
  abbrev pub upsert : String → ChatTurn J → List (ChatTurn J) → ChatTurn J × List (ChatTurn J)
  upsert id t ts = elim (find? (has_turn_id id) ts) [
    | none ↦ (t, ts ++ t ∷ [])
    | some u ↦ (touched t.updated_at u, update_first (has_turn_id id) (touched t.updated_at) ts)
  ]

  abbrev pub turn_store : TurnStore (List (ChatTurn J)) J
  turn_store = record {
    set_on_insert = upsert;
    find_newest = find?;
    find_oldest_first = filter;
    find_one = find?;
  }

  pub upsert-present :
      (id : String) (t u : ChatTurn J) (s : List (ChatTurn J))
      → find? (has_turn_id id) s ≡ some u
      → ((upsert id t s).0 ≡ touched t.updated_at u)
        × ((upsert id t s).1 ≡ update_first (has_turn_id id) (touched t.updated_at) s)
  upsert-present id t u s e = rw (e, upsert) (refl, refl)

  pub upsert-absent :
      (id : String) (t : ChatTurn J) (s : List (ChatTurn J))
      → find? (has_turn_id id) s ≡ none
      → ((upsert id t s).0 ≡ t) × ((upsert id t s).1 ≡ s ++ t ∷ [])
  upsert-absent id t s e = rw (e, upsert) (refl, refl)

  abbrev pub turn_store-IsTurnStore : IsTurnStore turn_store
  turn_store-IsTurnStore = record {
    docs = λ s. s;
    set_present = upsert-present;
    set_absent = upsert-absent;
    newest_meets = λ p s t e. find?-holds p (λ x. x) s t e;
  }
