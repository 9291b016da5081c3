-- ===== src/Auth/Linking.antt =====
-- auth.service.ts: what a Google sign-in does to a user who has a password.
use ai_trader_api.Base.{
  ℕ, ◌≡◌, ◌≢◌, refl, sym, subst, ◌∙◌, ◌==◌, String, true, none, some, str_eq, arith, eq_iff, find?,
}
use ai_trader_api.Base.Action.{ok}
use ai_trader_api.Base.Collection.{Collection, IsLawful}
use ai_trader_api.Base.Updates.{find?-update_same}
use ai_trader_api.Auth.{
  UserDocument, Credentials, Crypto, same_email, has_email, has_google_id, link_google, sign_token,
  login, find_or_create_google_user,
}

module _ {S T : Type 0} (users : Collection S UserDocument) (lower : String → String)
    (crypto : Crypto T) (law : IsLawful same_email users) where
  -- A user whom a query by the address finds, and whose password is right, is let in.
  pub found_user_logs_in :
      (dto : Credentials) (u : UserDocument) (h : String) (s : S)
      → find? (has_email users lower crypto dto.email) (law.docs s) ≡ some u
      → u.password_hash ≡ some h
      → h ≢ ""
      → crypto.compare dto.password h ≡ true
      → login users lower crypto dto s ≡ (ok (sign_token users lower crypto u), s)
  unfolding login
  found_user_logs_in dto u h s found hashed set right =
      rw (login, law.find_one_lem (has_email users lower crypto dto.email) s ∙ found, hashed)
        (ground (arith, eq_iff h "", right))

  google_links :
      (fresh_id : ℕ) (id email : String) (u : UserDocument) (s : S)
      → find? (has_google_id id) (law.docs s) ≡ none
      → find? (has_email users lower crypto email) (law.docs s) ≡ some u
      → find_or_create_google_user users lower crypto fresh_id id email s ≡ (
        ok (sign_token users lower crypto u),
        (users.find_one_and_update (λ v. v.id == u.id) (link_google id) s).1,
      )
  unfolding find_or_create_google_user
  google_links fresh_id id email u s unlinked found =
      rw
        (
          find_or_create_google_user,
          law.find_one_lem (has_google_id id) s ∙ unlinked,
          law.find_one_lem (has_email users lower crypto email) s ∙ found,
        )
        refl

  -- Of a user with a password, whom the address finds and of whose id there is one document: the first
  -- Google sign-in with this address, by an account that no user is linked to yet, is answered as the
  -- user, and the password still lets in as the same user.
  pub google_keeps_password :
      (fresh_id : ℕ) (id email : String) (dto : Credentials) (u : UserDocument) (h : String) (s : S)
      → find? (has_google_id id) (law.docs s) ≡ none
      → find? (has_email users lower crypto dto.email) (law.docs s) ≡ some u
      → find? (λ v. v.id == u.id) (law.docs s) ≡ some u
      → lower email ≡ lower dto.email
      → u.password_hash ≡ some h
      → h ≢ ""
      → crypto.compare dto.password h ≡ true
      → let (r, s') = find_or_create_google_user users lower crypto fresh_id id email s in
        (r ≡ ok (sign_token users lower crypto u))
        × (login users lower crypto dto s' ≡ (ok (sign_token users lower crypto u), s'))
  google_keeps_password fresh_id id email dto u h s unlinked found by_id same hashed set right =
      let q = has_email users lower crypto dto.email in
      let p = λ (v : UserDocument). v.id == u.id in
      let s' = (users.find_one_and_update p (link_google id) s).1 in
      let linked = google_links fresh_id id email u s unlinked (
        subst (λ e. find? (λ (v : UserDocument). str_eq v.email e) (law.docs s) ≡ some u) (sym same)
          found) in
      let after : find? q (law.docs s') ≡ some (link_google id u) =
        rw (law.docs-update p (link_google id) s)
          (find?-update_same p q (link_google id) (λ x. refl) (law.docs s) u by_id found) in
      rw linked (refl, found_user_logs_in dto (link_google id u) h s' after hashed set right)
