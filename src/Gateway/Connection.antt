-- ===== src/Gateway/Connection.antt =====
-- signals.gateway.ts: who a socket is (`parseCookies`, `handleConnection`), and which sockets the
-- broadcasts reach. `decode` is `decodeURIComponent`, `none` where it throws; `verify` is `verifyAsync`,
-- `none` where it rejects, with the `sub` of the payload. The rooms of users and of symbols have
-- different names, and so are different constructors. `is_attached` is whether there is a server.
use ai_trader_api.Base.{
  ◌≡◌, refl, ap, inl, inr, String, Bool, true, false, Option, none, some, List, [], ◌∷◌, ◌++◌, ◌==◌,
  str_eq, if◌then◌else◌, any, arith, Bool-cases, Option-cases, eq_iff,
}
use ai_trader_api.Base.Text.{Text, units, trim, is_empty, text_eq}

-- `s.split(';')`
abbrev split_cookies : Text → Text → List Text
split_cookies current [] = current ∷ []
split_cookies current (c ∷ s) = elim (c == 59) [
  | true ↦ current ∷ split_cookies [] s
  | false ↦ split_cookies (current ++ c ∷ []) s
]

-- The part up to the first `=`, and the part behind it.
abbrev split_pair_at : Text → Option (Text × Text)
split_pair_at [] = none
split_pair_at (c ∷ s) = elim (c == 61) [
  | true ↦ some ([], s)
  | false ↦ elim (split_pair_at s) [ none ↦ none | some p ↦ some (c ∷ p.0, p.1) ]
]

-- The cookies read so far, the last one first.
abbrev pub Cookies : Type 0
Cookies = List (Text × Text)

abbrev pub cookie : Text → Cookies → Option Text
cookie name [] = none
cookie name (p ∷ out) = let rest = cookie name out in if text_eq p.0 name then some p.1 else rest

-- The loop of `parseCookies`; `none` is the exception of `decode`.
unfoldable pub cookies_from : (Text → Option Text) → Cookies → List Text → Option Cookies
unfolding trim
cookies_from decode out [] = some out
cookies_from decode out (part ∷ parts) = elim (split_pair_at part) [
  | none ↦ cookies_from decode out parts
  | some (before, behind) ↦ elim (is_empty (trim before)) [
    | true ↦ cookies_from decode out parts
    | false ↦ elim (decode (trim behind)) [
      | none ↦ none
      | some value ↦ cookies_from decode ((trim before, value) ∷ out) parts
    ]
  ]
]

unfoldable pub parse_cookies : (Text → Option Text) → Option Text → Option Cookies
parse_cookies decode none = some []
parse_cookies decode (some header) =
    if is_empty header then some [] else cookies_from decode [] (split_cookies [] header)

-- How `handleConnection` ends: with the exception, with the socket disconnected, or with the socket in
-- the room of the user.
pub data Connection : Type 0 where
  threw disconnected : Connection
  joined_as : (user : String) → Connection

abbrev pub access_token : Text
access_token = units "access_token"

abbrev pub joined : Option (Option String) → Connection
joined none = disconnected
joined (some none) = disconnected
joined (some (some sub)) = if str_eq sub "" then disconnected else joined_as sub

abbrev pub connect_with : (Text → Option (Option String)) → Option Text → Connection
connect_with verify none = disconnected
connect_with verify (some token) = if is_empty token then disconnected else joined (verify token)

-- `handleConnection`.
unfoldable pub handle_connection :
    (Text → Option Text) → (Text → Option (Option String)) → Option Text → Connection
handle_connection decode verify header = elim (parse_cookies decode header) [
  | none ↦ threw
  | some cookies ↦ connect_with verify (cookie access_token cookies)
]

-- Whom an emission is for, and what it is.
pub data Audience : Type 0 where
  everyone : Audience
  symbol_audience user_audience : String → Audience

pub data EventName : Type 0 where
  tick signal order_update positions_update alert : EventName

pub record Emission (J : Type 0) : Type 0 where
  pub audience : Audience
  pub name : EventName
  pub payload : J

abbrev pub emit : {J : Type 0} → Bool → Audience → EventName → J → List (Emission J)
emit is_attached audience name payload =
    if is_attached then record { audience = audience; name = name; payload = payload } ∷ [] else []

abbrev pub to_symbol : {J : Type 0} → Bool → Option String → EventName → J → List (Emission J)
to_symbol is_attached none name payload = []
to_symbol is_attached (some symbol) name payload =
    if str_eq symbol "" then [] else emit is_attached (symbol_audience symbol) name payload

-- `symbol_of` reads the symbol of a payload.
module _ {J : Type 0} (is_attached : Bool) (symbol_of : J → Option String) where
  -- `handleRedisMessage`; `parse` is `JSON.parse`, `none` where it throws.
  pub handle_redis_message : (Text → Option J) → Text → Text → List (Emission J)
  handle_redis_message parse channel message =
      if text_eq channel (units "market:ticks")
      then elim (parse message) [
        | none ↦ []
        | some payload ↦ to_symbol is_attached (symbol_of payload) tick payload
      ]
      else []

  -- `broadcastSignal`.
  unfoldable pub broadcast_signal : J → List (Emission J)
  broadcast_signal payload =
      emit is_attached everyone signal payload
      ++ to_symbol is_attached (symbol_of payload) signal payload

module _ {J : Type 0} (is_attached : Bool) where
  -- `emitOrderUpdate`, `emitPositionUpdate`, `broadcastAlert`.
  unfoldable pub emit_order_update : String → J → List (Emission J)
  emit_order_update user order = emit is_attached (user_audience user) order_update order

  unfoldable pub emit_position_update : String → J → List (Emission J)
  emit_position_update user positions =
      emit is_attached (user_audience user) positions_update positions

  pub broadcast_alert : J → List (Emission J)
  broadcast_alert payload = emit is_attached everyone alert payload

-- Whether a socket, by how it connected and by the symbols it subscribed to, gets an emission.
abbrev pub hears : Connection → List String → Audience → Bool
hears connection symbols everyone = true
hears connection symbols (symbol_audience s) = any (str_eq s) symbols
hears (joined_as u) symbols (user_audience user) = str_eq u user
hears threw symbols (user_audience user) = false
hears disconnected symbols (user_audience user) = false

joined-verified :
    (payload : Option (Option String)) (user : String)
    → joined payload ≡ joined_as user
    → payload ≡ some (some user)
joined-verified none user h = absurd (cc h)
joined-verified (some none) user h = absurd (cc h)
joined-verified (some (some sub)) user h = elim (Bool-cases (str_eq sub "")) [
  | inl e ↦ absurd (cc (rw e at h))
  | inr e ↦ ap (λ u. some (some u)) (cc (rw e at h))
]

connect_with-verified :
    (verify : Text → Option (Option String)) (token : Option Text) (user : String)
    → connect_with verify token ≡ joined_as user
    → (t : Text) × (token ≡ some t) × (verify t ≡ some (some user))
connect_with-verified verify none user h = absurd (cc h)
connect_with-verified verify (some t) user h = elim (Bool-cases (is_empty t)) [
  | inl e ↦ absurd (cc (rw e at h))
  | inr e ↦ (t, refl, joined-verified (verify t) user (rw e at h))
]

heard-joined :
    (connection : Connection) (symbols : List String) (user : String)
    → hears connection symbols (user_audience user) ≡ true
    → connection ≡ joined_as user
heard-joined threw symbols user h = absurd (cc h)
heard-joined disconnected symbols user h = absurd (cc h)
heard-joined (joined_as u) symbols user h = ap joined_as (ground (arith, eq_iff u user))

handle_connection-verified :
    (decode : Text → Option Text) (verify : Text → Option (Option String)) (header : Option Text)
    (user : String)
    → handle_connection decode verify header ≡ joined_as user
    → (cookies : Cookies) × (token : Text) × (parse_cookies decode header ≡ some cookies)
      × (cookie access_token cookies ≡ some token)
      × (verify token ≡ some (some user))
unfolding handle_connection
handle_connection-verified decode verify header user h =
    elim (Option-cases (parse_cookies decode header)) [
      | inl e ↦ absurd (cc (rw (e, handle_connection) at h))
      | inr (cookies, e) ↦
          let (token, held, verified) =
            connect_with-verified verify (cookie access_token cookies) user
              (rw (e, handle_connection) at h) in
          (cookies, token, e, held, verified)
    ]

heard_both :
    {J : Type 0} (connection : Connection) (symbols : List String) (user : String)
    (order positions : J)
    → any
        (λ (e : Emission J). hears connection symbols e.audience)
        (emit_order_update true user order ++ emit_position_update true user positions)
      ≡ true
    → hears connection symbols (user_audience user) ≡ true
unfolding emit_order_update emit_position_update
heard_both connection symbols user order positions h =
    elim (Bool-cases (hears connection symbols (user_audience user))) [
      | inl e ↦ e
      | inr e ↦ absurd (cc (rw e at h))
    ]

-- A socket gets the order and position updates of a user only where its cookie holds a token that was
-- verified to be that user's, whatever symbols it subscribed to.
pub private_updates_need_token :
    {J : Type 0} (decode : Text → Option Text) (verify : Text → Option (Option String))
    (header : Option Text) (symbols : List String) (user : String) (order positions : J)
    → any
        (λ (e : Emission J). hears (handle_connection decode verify header) symbols e.audience)
        (emit_order_update true user order ++ emit_position_update true user positions)
      ≡ true
    → (cookies : Cookies) × (token : Text) × (parse_cookies decode header ≡ some cookies)
      × (cookie access_token cookies ≡ some token)
      × (verify token ≡ some (some user))
private_updates_need_token decode verify header symbols user order positions h =
    let connection = handle_connection decode verify header in
    handle_connection-verified decode verify header user
      (heard-joined connection symbols user (heard_both connection symbols user order positions h))
