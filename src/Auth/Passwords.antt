-- ===== src/Auth/Passwords.antt =====
-- auth.service.ts: registering, and logging in with the password.
use ai_trader_api.Base.{
  ℕ, ◌≡◌, ◌≢◌, refl, sym, subst, ◌∙◌, ◌++◌, String, Bool, true, false, none, some, List, [], ◌∷◌,
  str_eq, arith, eq_iff, find?, any,
}
use ai_trader_api.Base.Action.{ok, err}
use ai_trader_api.Base.Collection.{Collection, IsLawful}
use ai_trader_api.Base.Updates.{find?-append_last}
use ai_trader_api.Auth.{
  UserDocument, Credentials, Crypto, email_taken, same_email, has_email, sign_token, login,
  register, new_user,
}
use ai_trader_api.Auth.Linking.{found_user_logs_in}

-- The unique index stands in nobody's way whom the query by address does not find.
any-same_email :
    (u : UserDocument) (docs : List UserDocument)
    → find? (λ v. str_eq v.email u.email) docs ≡ none
    → any (same_email u) docs ≡ false
any-same_email u [] h = refl
any-same_email u (v ∷ docs) h =
    ground (arith, eq_iff v.email u.email, eq_iff u.email v.email, any-same_email u docs)

module _ {S T : Type 0} (users : Collection S UserDocument) (lower : String → String)
    (crypto : Crypto T) (law : IsLawful same_email users) where
  abbrev registered : ℕ → Credentials → UserDocument
  registered fresh_id dto =
      new_user fresh_id (lower dto.email) (some (crypto.hash dto.password)) none

  abbrev finds : String → UserDocument → Bool
  finds = has_email users lower crypto

  register_taken :
      (fresh_id : ℕ) (dto : Credentials) (u : UserDocument) (s : S)
      → find? (finds dto.email) (law.docs s) ≡ some u
      → register users lower crypto fresh_id dto s ≡ (err email_taken, s)
  unfolding register
  register_taken fresh_id dto u s found =
      rw (register, law.find_one_lem (finds dto.email) s ∙ found) refl

  register_free :
      (fresh_id : ℕ) (dto : Credentials) (s : S)
      → lower dto.email ≢ ""
      → find? (finds dto.email) (law.docs s) ≡ none
      → (s' : S) × (register users lower crypto fresh_id dto s
          ≡ (ok (sign_token users lower crypto (registered fresh_id dto)), s'))
        × (law.docs s' ≡ law.docs s ++ registered fresh_id dto ∷ [])
  unfolding register
  register_free fresh_id dto s given free =
      let u = registered fresh_id dto in
      let (s', made) = law.create_free u s (any-same_email u (law.docs s) free) in
      (
        s',
        rw (register, law.find_one_lem (finds dto.email) s ∙ free)
            (ground (arith, eq_iff (lower dto.email) "", made)),
        law.created u s s' made,
      )

  -- Of an address that is not taken and not empty, with a hash that is not empty and that the password
  -- passes: registering answers a token for a new user, who alone is added; from then on the password
  -- lets in as that user, however the address is written in capitals; and registering the address
  -- again, with whatever password, is refused and writes nothing.
  pub register-login :
      (fresh_id again : ℕ) (dto : Credentials) (email password : String) (s : S)
      → lower dto.email ≢ ""
      → find? (finds dto.email) (law.docs s) ≡ none
      → crypto.hash dto.password ≢ ""
      → crypto.compare dto.password (crypto.hash dto.password) ≡ true
      → lower email ≡ lower dto.email
      → let (r, s') = register users lower crypto fresh_id dto s in
        (r ≡ ok (sign_token users lower crypto (registered fresh_id dto)))
        × (law.docs s' ≡ law.docs s ++ registered fresh_id dto ∷ [])
        × (login users lower crypto (record { email = email; password = dto.password }) s'
            ≡ (r, s'))
        × (register users lower crypto again (record { email = email; password = password }) s'
            ≡ (err email_taken, s'))
  register-login fresh_id again dto email password s given free set right same =
      let u = registered fresh_id dto in
      let (s', answered, added) = register_free fresh_id dto s given free in
      let found : find? (finds email) (law.docs s') ≡ some u =
        subst (λ e. find? (λ (v : UserDocument). str_eq v.email e) (law.docs s') ≡ some u)
          (sym same)
          (rw added (
            find?-append_last (finds dto.email) u (law.docs s) free
              (ground (arith, eq_iff (lower dto.email) (lower dto.email))))) in
      rw answered (
        refl,
        added,
        found_user_logs_in users lower crypto law
            (record { email = email; password = dto.password }) u (crypto.hash dto.password) s'
            found refl set right,
        register_taken again (record { email = email; password = password }) u s' found,
      )
