-- ===== src/Stores/Alerts.antt =====
-- src/alerts/alerts.service.ts: alerts are stored, and pushed to every socket.
use ai_trader_api.Base.{
  ℕ, ◌==◌, ◌++◌, String, Bool, true, Option, none, some, List, [], take, or_else, if◌then◌else◌,
}
use ai_trader_api.Base.Action.{ok, err, Action}
use ai_trader_api.Base.Collection.{Collection}
use ai_trader_api.Gateway.Connection.{Emission, broadcast_alert}

module _ (J : Type 0) where
  -- `StoreAlertDto`.
  pub record StoreAlertDto : Type 0 where
    pub type : String
    pub title : String
    pub body : Option String
    pub symbols : Option (List String)
    pub payload : Option J

  -- `Alert`.
  pub record Alert : Type 0 where
    pub type : String
    pub title : String
    pub body : String
    pub symbols : List String
    pub payload : J

-- The collection, and what was emitted, the last one first.
pub record AlertState (S J : Type 0) : Type 0 where
  pub alerts : S
  pub emitted : List (Emission J)

-- What the driver throws.
pub data AlertError : Type 0 where
  not_stored : AlertError

module _ {S J : Type 0} (alerts : Collection S (Alert J)) (empty : J) (to_object : Alert J → J)
    (is_attached : Bool) where
  abbrev pub alert_of : StoreAlertDto J → Alert J
  alert_of dto = record {
    type = dto.type;
    title = dto.title;
    body = or_else dto.body "";
    symbols = or_else dto.symbols [];
    payload = or_else dto.payload empty;
  }

  -- `store`.
  pub store : StoreAlertDto J → Action AlertError (AlertState S J) (Alert J)
  store dto w = elim (alerts.create (alert_of dto) w.alerts) [
    | none ↦ (err not_stored, w)
    | some alerts' ↦ (
      ok (alert_of dto),
      record {
        alerts = alerts';
        emitted = broadcast_alert is_attached (to_object (alert_of dto)) ++ w.emitted;
      },
    )
  ]

  -- `recent`; `newest_first` is the sort, and no limit is 30.
  pub recent : (List (Alert J) → List (Alert J)) → Option ℕ → AlertState S J → List (Alert J)
  recent newest_first limit w =
      let n = or_else limit 30 in
      let found = newest_first (alerts.find (λ _. true) w.alerts) in
      if n == 0 then found else take n found
