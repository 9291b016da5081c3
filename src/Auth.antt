-- ===== src/Auth.antt =====
-- src/auth/auth.service.ts, jwt.strategy.ts, google.strategy.ts, jwt-secret.ts and the cookies of
-- auth.controller.ts: who may come in. bcrypt and the JSON web tokens are the functions of `Crypto`, a
-- token that of the user's id and address at the time of the call. The schema stores addresses in
-- lower case, and Mongoose casts the address of a query in the same way. Ids are numbers.

pub mod Linking
pub mod Passwords
mod Tests
use ai_trader_api.Base.{
  ℕ, ◌==◌, ◌*◌, String, Bool, true, false, not, Option, none, some, str_eq, ltb, if◌then◌else◌,
  or_else, is_some, length,
}
use ai_trader_api.Base.Action.{
  Result, ok, err, Action, pure, throw, gets, or_throw, throw_if, ◌>>=◌, ◌>>◌,
}
use ai_trader_api.Base.Collection.{Collection}
use ai_trader_api.Base.Text.{Text}

-- `User` of the schema; the cap of tokens is in Admin.
pub record UserDocument : Type 0 where
  pub id : ℕ
  pub email : String
  pub password_hash : Option String
  pub google_id : Option String
  pub role : String
  pub plan : String
  pub is_active : Bool

-- The unique index on `email`.
abbrev pub same_email : UserDocument → UserDocument → Bool
same_email u v = str_eq u.email v.email

pub data AuthError : Type 0 where
  email_taken invalid_credentials unauthorized : AuthError
  -- What Mongoose throws: the duplicate key, and an address that is empty.
  duplicate_email missing_email : AuthError

-- `RegisterDto` and `LoginDto`.
pub record Credentials : Type 0 where
  pub email : String
  pub password : String

-- What is taken of the profile that Google sends; the address may be missing.
pub record Profile : Type 0 where
  pub id : String
  pub email : Option String

pub record Crypto (Token : Type 0) : Type 0 where
  pub hash : String → String
  pub compare : String → String → Bool
  pub sign : ℕ → String → Token

-- The user of an answer, and what `signToken` answers.
pub record UserView : Type 0 where
  pub id : ℕ
  pub email : String
  pub plan : String

pub record SignedIn (Token : Type 0) : Type 0 where
  pub token : Token
  pub user : UserView

-- What `JwtStrategy.validate` attaches to the request.
pub record RequestUser : Type 0 where
  pub id : ℕ
  pub email : String
  pub plan : String
  pub role : String

-- The document of a new user, the defaults of the schema filled in.
abbrev pub new_user : ℕ → String → Option String → Option String → UserDocument
new_user id email password_hash google_id = record {
  id = id;
  email = email;
  password_hash = password_hash;
  google_id = google_id;
  role = "user";
  plan = "free";
  is_active = true;
}

abbrev pub has_google_id : String → UserDocument → Bool
has_google_id id u = elim u.google_id [ none ↦ false | some g ↦ str_eq g id ]

abbrev pub link_google : String → UserDocument → UserDocument
link_google id u = record u { google_id = some id }

module _ {S T : Type 0} (users : Collection S UserDocument) (lower : String → String)
    (crypto : Crypto T) where
  -- The query `{ email }`.
  abbrev pub has_email : String → UserDocument → Bool
  has_email email u = str_eq u.email (lower email)

  -- `signToken`.
  abbrev pub sign_token : UserDocument → SignedIn T
  sign_token u = record {
    token = crypto.sign u.id u.email;
    user = record { id = u.id; email = u.email; plan = u.plan };
  }

  -- `userModel.create`, with the validation of the schema.
  abbrev pub create_user : UserDocument → Action AuthError S UserDocument
  create_user u s =
      if str_eq u.email ""
      then (err missing_email, s)
      else elim (users.create u s) [ none ↦ (err duplicate_email, s) | some s' ↦ (ok u, s') ]

  -- `register`.
  pub register : ℕ → Credentials → Action AuthError S (SignedIn T)
  register fresh_id dto = do
    existing ← gets (users.find_one (has_email dto.email))
    throw_if (is_some existing) email_taken
    user ← create_user (new_user fresh_id (lower dto.email) (some (crypto.hash dto.password)) none)
    pure (sign_token user)

  -- `if (!user || !user.passwordHash)`
  abbrev pub password_of : Option UserDocument → Option (UserDocument × String)
  password_of none = none
  password_of (some u) = elim u.password_hash [
    | none ↦ none
    | some h ↦ if str_eq h "" then none else some (u, h)
  ]

  -- `login`.
  pub login : Credentials → Action AuthError S (SignedIn T)
  login dto = do
    found ← gets (λ s. password_of (users.find_one (has_email dto.email) s))
    (user, stored) ← or_throw found invalid_credentials
    throw_if (not (crypto.compare dto.password stored)) invalid_credentials
    pure (sign_token user)

  -- The branch without a user of the Google id: the user of the address is linked, or a new one made.
  abbrev pub link_or_create :
      ℕ → String → String → Option UserDocument → Action AuthError S UserDocument
  link_or_create fresh_id id email none s =
      create_user (new_user fresh_id (lower email) none (some id)) s
  link_or_create fresh_id id email (some u) s =
      (ok (link_google id u), (users.find_one_and_update (λ v. v.id == u.id) (link_google id) s).1)

  abbrev pub google_user :
      ℕ → String → String → Option UserDocument → Action AuthError S UserDocument
  google_user fresh_id id email (some u) = pure u
  google_user fresh_id id email none = do
    by_email ← gets (users.find_one (has_email email))
    link_or_create fresh_id id email by_email

  -- `findOrCreateGoogleUser`.
  pub find_or_create_google_user : ℕ → String → String → Action AuthError S (SignedIn T)
  find_or_create_google_user fresh_id id email = do
    by_id ← gets (users.find_one (has_google_id id))
    user ← google_user fresh_id id email by_id
    pure (sign_token user)

  -- `GoogleStrategy.validate`.
  pub validate_google : ℕ → Profile → Action AuthError S (SignedIn T)
  validate_google fresh_id profile =
      find_or_create_google_user fresh_id profile.id (or_else profile.email "")

  abbrev pub active : Option UserDocument → Option UserDocument
  active none = none
  active (some u) = if u.is_active then some u else none

  -- `JwtStrategy.validate`, of the payload of a token that was verified.
  pub validate_jwt : ℕ → String → Action AuthError S RequestUser
  validate_jwt sub email = do
    found ← gets (λ s. active (users.find_one (λ u. u.id == sub) s))
    u ← or_throw found unauthorized
    pure (record { id = sub; email = email; plan = u.plan; role = u.role })

-- `requireJwtSecret`: `none` where it refuses to start.
pub require_jwt_secret : Option Text → Option Text
require_jwt_secret none = none
require_jwt_secret (some secret) = if ltb (length secret) 32 then none else some secret

-- What a route of the controller answers, and the value that it sets the cookie `access_token` to.
pub record Response (T A : Type 0) : Type 0 where
  pub answer : Result AuthError A
  pub cookie : Option T

abbrev pub with_cookie :
    {S T : Type 0} → Result AuthError (SignedIn T) × S → Response T UserView × S
with_cookie (ok signed, s) = (record { answer = ok signed.user; cookie = some signed.token }, s)
with_cookie (err e, s) = (record { answer = err e; cookie = none }, s)

module _ {S T : Type 0} (users : Collection S UserDocument) (lower : String → String)
    (crypto : Crypto T) where
  -- The routes `register` and `login`.
  pub post_register : ℕ → Credentials → S → Response T UserView × S
  post_register fresh_id dto s = with_cookie (register users lower crypto fresh_id dto s)

  pub post_login : Credentials → S → Response T UserView × S
  post_login dto s = with_cookie (login users lower crypto dto s)
