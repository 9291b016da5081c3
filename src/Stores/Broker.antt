-- ===== src/Stores/Broker.antt =====
-- src/broker/zerodha-session.service.ts: the current token of the broker account.
use ai_trader_api.Base.{
  ℕ, ◌≡◌, refl, String, Bool, false, Option, none, some, List, [], ◌∷◌, str_eq, find?, any, arith,
  eq_iff,
}
use ai_trader_api.Base.Collection.{Collection, IsLawful, upsert}
use ai_trader_api.Stores.Upserts.{find_one-replace}

-- `ZerodhaSession`.
pub record ZerodhaSession : Type 0 where
  pub key : String
  pub access_token : String
  pub refreshed_at : ℕ

-- `ZerodhaSessionView`.
pub record ZerodhaSessionView : Type 0 where
  pub access_token : Option String
  pub refreshed_at : Option ℕ

-- `{ key: KEY }`
abbrev pub is_zerodha : ZerodhaSession → Bool
is_zerodha d = str_eq d.key "zerodha"

-- The unique index.
abbrev pub same_session : ZerodhaSession → ZerodhaSession → Bool
same_session d e = str_eq d.key e.key

abbrev pub session_of : String → ℕ → ZerodhaSession
session_of access_token now = record {
  key = "zerodha";
  access_token = access_token;
  refreshed_at = now;
}

abbrev pub session_view : Option ZerodhaSession → ZerodhaSessionView
session_view none = record { access_token = none; refreshed_at = none }
session_view (some d) = record {
  access_token = some d.access_token;
  refreshed_at = some d.refreshed_at;
}

module _ {S : Type 0} (sessions : Collection S ZerodhaSession) where
  -- `get`.
  pub get : S → ZerodhaSessionView
  get s = session_view (sessions.find_one is_zerodha s)

  -- `set`; the key stays what it is in a document that the query meets.
  pub set : String → ℕ → S → ZerodhaSessionView × S
  set access_token now s =
      let d = session_of access_token now in
      (session_view (some d), (upsert sessions is_zerodha (λ _. d) d s).1)

any-same_session :
    (d : ZerodhaSession) (docs : List ZerodhaSession)
    → d.key ≡ "zerodha"
    → find? is_zerodha docs ≡ none
    → any (same_session d) docs ≡ false
any-same_session d [] named h = refl
any-same_session d (x ∷ docs) named h =
    ground (arith, eq_iff x.key "zerodha", eq_iff d.key x.key, any-same_session d docs)

-- What is read after a token was set is what setting it answered: the token, and the time it was set at.
pub get-set :
    {S : Type 0} (sessions : Collection S ZerodhaSession) (law : IsLawful same_session sessions)
    (access_token : String) (now : ℕ) (s : S)
    → let (answer, s') = set sessions access_token now s in get sessions s' ≡ answer
unfolding get set
get-set sessions law access_token now s =
    let d = session_of access_token now in
    rw
      (find_one-replace same_session sessions law is_zerodha d
        (ground (arith, eq_iff "zerodha" "zerodha")) s (any-same_session d (law.docs s) refl))
      refl
