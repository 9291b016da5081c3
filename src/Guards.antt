-- ===== src/Guards.antt =====
-- src/auth/roles.guard.ts and src/common/guards/internal-key.guard.ts: who may call a route. Refusals
-- are `err`; the metadata of a route and the headers of a request are arguments.
mod Tests
pub mod InternalKey
use ai_trader_api.Base.{
  ℕ, String, Bool, true, false, ◌==◌, Option, none, some, List, [], ◌∷◌, length, str_eq,
  if◌then◌else◌, ◌||◌,
}
use ai_trader_api.Base.Action.{Result, ok, err}

pub data Refusal : Type 0 where
  no_access invalid_key : Refusal

-- `required.includes(role)`
abbrev pub includes : String → List String → Bool
includes role [] = false
includes role (r ∷ rs) = str_eq r role || includes role rs

abbrev pub check_role : List String → Option String → Result Refusal Bool
check_role required none = err no_access
check_role required (some role) =
    if str_eq role ""
    then err no_access
    else if includes role required
    then ok true
    else err no_access

-- `RolesGuard.canActivate`, of the roles that the route requires and the role of the user.
unfoldable pub allows_role : Option (List String) → Option String → Result Refusal Bool
allows_role none role = ok true
allows_role (some []) role = ok true
allows_role (some (r ∷ rs)) role = check_role (r ∷ rs) role

-- The `x-internal-key` header.
pub data Header : Type 0 where
  absent : Header
  single : String → Header
  several : List String → Header

-- `Array.isArray(raw) ? raw[0] : raw`
abbrev pub header_key : Header → Option String
header_key absent = none
header_key (single key) = some key
header_key (several []) = none
header_key (several (key ∷ keys)) = some key

-- `utf8` is `Buffer.from(s, 'utf8')`; `timing_safe_equal` is that of `crypto`, `none` where it throws.
module _ (utf8 : String → List ℕ) (timing_safe_equal : List ℕ → List ℕ → Option Bool) where
  -- `timingSafeEqualStr`.
  abbrev pub timing_safe_equal_str : String → String → Option Bool
  timing_safe_equal_str expected given =
      if length (utf8 expected) == length (utf8 given)
      then timing_safe_equal (utf8 expected) (utf8 given)
      else some false

  abbrev pub verdict : Option Bool → Option (Result Refusal Bool)
  verdict none = none
  verdict (some true) = some (ok true)
  verdict (some false) = some (err invalid_key)

  abbrev pub check_key : Option String → Option String → Option (Result Refusal Bool)
  check_key none given = some (err invalid_key)
  check_key (some expected) none = some (err invalid_key)
  check_key (some expected) (some given) =
      if str_eq expected "" || str_eq given ""
      then some (err invalid_key)
      else verdict (timing_safe_equal_str expected given)

  -- `InternalKeyGuard.canActivate`, of the configured key and the header; `none` where it throws
  -- something else than the refusal.
  unfoldable pub allows_internal : Option String → Header → Option (Result Refusal Bool)
  allows_internal expected header = check_key expected (header_key header)
