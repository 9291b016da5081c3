-- ===== src/Auth/Tests.antt =====
-- Runs of the sign-in on a list of users.
use ai_trader_api.Base.{
  ℕ, ◌≡◌, refl, String, false, none, some, List, [], ◌∷◌, str_eq, if◌then◌else◌, arith, eq_iff,
}
use ai_trader_api.Base.Action.{ok, err}
use ai_trader_api.Base.Collection.{Collection, list_collection, list_collection-IsLawful}
use ai_trader_api.Auth.{
  UserDocument, Credentials, Crypto, same_email, new_user, sign_token, register, login,
  find_or_create_google_user, validate_jwt, validate_google, email_taken, unauthorized,
  missing_email, post_login, invalid_credentials,
}
use ai_trader_api.Auth.Linking.{google_keeps_password}
use ai_trader_api.Auth.Passwords.{register-login}

abbrev users : Collection (List UserDocument) UserDocument
users = list_collection same_email

-- Lower case, of the addresses of the runs.
abbrev lower : String → String
lower s = if str_eq s "Eve@x.in" then "eve@x.in" else s

abbrev crypto : Crypto (ℕ × String)
crypto = record { hash = λ password. password; compare = str_eq; sign = λ id email. (id, email) }

abbrev eve : Credentials
eve = record { email = "eve@x.in"; password = "secret12" }

abbrev eve_document : UserDocument
eve_document = new_user 1 "eve@x.in" (some "secret12") none

register-login_example :
    let (r, s') = register users lower crypto 1 eve [] in
    (r ≡ ok (sign_token users lower crypto eve_document))
    × (s' ≡ eve_document ∷ [])
    × (login users lower crypto (record { email = "Eve@x.in"; password = "secret12" }) s' ≡ (r, s'))
    × (register users lower crypto 2 (record { email = "Eve@x.in"; password = "other123" }) s'
        ≡ (err email_taken, s'))
register-login_example =
    register-login users lower crypto (list_collection-IsLawful same_email) 1 2 eve "Eve@x.in"
      "other123" [] (ground (arith, eq_iff "eve@x.in" "")) refl
      (ground (arith, eq_iff "secret12" "")) refl refl

google_keeps_password_example :
    let (r, s') =
      find_or_create_google_user users lower crypto 2 "g" "Eve@x.in" (eve_document ∷ []) in
    (r ≡ ok (sign_token users lower crypto eve_document))
    × (login users lower crypto eve s' ≡ (ok (sign_token users lower crypto eve_document), s'))
google_keeps_password_example =
    google_keeps_password users lower crypto (list_collection-IsLawful same_email) 2 "g" "Eve@x.in"
      eve eve_document "secret12" (eve_document ∷ []) refl refl refl refl refl
      (ground (arith, eq_iff "secret12" "")) refl

missing_email_run :
    validate_google users lower crypto 2 (record { id = "g"; email = none }) []
    ≡ (err missing_email, [])
unfolding validate_google find_or_create_google_user
missing_email_run = refl

wrong_password_run :
    post_login users lower crypto (record eve { password = "guess" }) (eve_document ∷ [])
    ≡ (record { answer = err invalid_credentials; cookie = none }, eve_document ∷ [])
unfolding post_login login
wrong_password_run = refl

inactive_run :
    (validate_jwt users lower crypto 1 "eve@x.in"
      (record eve_document { is_active = false } ∷ [])).0
    ≡ err unauthorized
unfolding validate_jwt
inactive_run = refl
