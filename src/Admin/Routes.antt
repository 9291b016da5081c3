-- ===== src/Admin/Routes.antt =====
-- src/admin/admin.controller.ts: the routes, behind the guard that requires the role of an admin. The
-- check of the token that comes before it is not shown; the role is that of its user.
use ai_trader_api.Base.{
  ℕ, ◌≡◌, ◌≢◌, refl, ap, ◌∙◌, String, Bool, Option, some, List, [], ◌∷◌, inl, inr, Option-cases,
  arith, eq_iff,
}
use ai_trader_api.Base.Text.{Text}
use ai_trader_api.Base.Action.{Result, ok, err, Action}
use ai_trader_api.Guards.{Refusal, no_access, allows_role}
use ai_trader_api.Requests.{Parsed}
use ai_trader_api.Requests.Limits.{parse_limit}
use ai_trader_api.Admin.{
  AdminStore, AdminError, AdminUserUsage, Totals, AdminTurnSummary, usage_today, recent_turns,
  set_cap,
}

pub data AdminRouteError : Type 0 where
  denied : Refusal → AdminRouteError
  failed : AdminError → AdminRouteError

-- `@Roles('admin')`
abbrev pub required_roles : Option (List String)
required_roles = some ("admin" ∷ [])

module _ {S : Type 0} where
  -- A call that is made where the guard lets the request through.
  abbrev pub after_guard :
      {A : Type 0} → Result Refusal Bool → Action AdminRouteError S A → Action AdminRouteError S A
  after_guard (err e) call s = (err (denied e), s)
  after_guard (ok allowed) call s = call s

  abbrev pub shown : {A : Type 0} → (S → A) → Action AdminRouteError S A
  shown read s = (ok (read s), s)

  abbrev pub with_failure : {A : Type 0} → Result AdminError A × S → Result AdminRouteError A × S
  with_failure (ok a, s) = (ok a, s)
  with_failure (err e, s) = (err (failed e), s)

module _ {S J : Type 0} (store : AdminStore S J) (default_cap : ℕ) (role : Option String) where
  pub get_usage : ℕ → Action AdminRouteError S (List AdminUserUsage × Totals)
  get_usage now =
      after_guard (allows_role required_roles role) (shown (usage_today store default_cap now))

  pub get_turns :
      (J → ℕ)
      → (Text → Parsed)
      → String
      → Option Text
      → Action AdminRouteError S (List AdminTurnSummary)
  get_turns tokens parse_int user limit =
      after_guard (allows_role required_roles role)
        (shown (recent_turns store default_cap tokens user (parse_limit parse_int limit 20)))

  pub patch_cap : String → Option ℕ → ℕ → Action AdminRouteError S AdminUserUsage
  patch_cap user cap now =
      after_guard (allows_role required_roles role)
        λ s. with_failure (set_cap store default_cap user cap now s)

  not_admin : role ≢ some "admin" → allows_role required_roles role ≡ err no_access
  unfolding allows_role
  not_admin other = elim (Option-cases role) [
    | inl e ↦ rw e refl
    | inr (r, e) ↦
        let differs : r ≢ "admin" = λ p. other (e ∙ ap some p) in
        rw e (ground (arith, eq_iff "admin" r, differs))
  ]

  -- Whoever is not an admin is refused every route of the admin, and nothing is written.
  only_admins :
      role ≢ some "admin"
      → (tokens : J → ℕ) (parse_int : Text → Parsed) (user : String) (limit : Option Text)
        (cap : Option ℕ) (now : ℕ) (s : S)
      → (get_usage now s ≡ (err (denied no_access), s))
        × (get_turns tokens parse_int user limit s ≡ (err (denied no_access), s))
        × (patch_cap user cap now s ≡ (err (denied no_access), s))
  unfolding get_usage get_turns patch_cap
  only_admins other tokens parse_int user limit cap now s = rw (not_admin other) (refl, refl, refl)
