-- ===== src/Guards.antt =====
-- src/common/guards: who may call an endpoint, and for which tenant. The token is checked by passport
-- and is read here as the user that it gives; rate limits are left out. `id_of` is the identifier that a
-- header spells, and the dispatcher of events is there.
mod Laws
mod Tests
use Prim.Native.Char.{Char, code}
use Prim.Native.String.{String}
use text.Mathlib.Text.{◌==◌ as str_eq}
use wash_flow.Prelude.{
  ℕ, zero, suc, Bool, true, false, not, Option, none, some, List, [], ◌∷◌, ◌&&◌, ◌||◌, ◌==◌, leb,
  contains, any, Result, ok, err, forbidden, bad_request, unavailable, if◌then◌else◌,
}

pub record RequestUser : Type 0 where
  pub sub : ℕ
  pub tenant_id : Option ℕ
  pub is_super_admin : Bool
  pub permissions : Option (List String)

pub data GuardEvent : Type 0 where
  super_admin_tenant_access : (tenant_id super_admin_id target_tenant_id : ℕ) → GuardEvent

abbrev between : ℕ → ℕ → ℕ → Bool
between low high c = leb low c && leb c high

-- `[0-9a-f]` without regard to case
abbrev is_hex : Char → Bool
is_hex c = between 48 57 (code c) || (between 97 102 (code c) || between 65 70 (code c))

abbrev is_group : ℕ → (String → Bool) → String → Bool
is_group zero rest s = rest s
is_group (suc n) rest String.[] = false
is_group (suc n) rest (String.◌∷◌ c s) = is_hex c && is_group n rest s

abbrev is_dash : (String → Bool) → String → Bool
is_dash rest String.[] = false
is_dash rest (String.◌∷◌ c s) = code c == 45 && rest s

abbrev is_end : String → Bool
is_end String.[] = true
is_end (String.◌∷◌ c s) = false

unfoldable pub uuid_regex : String → Bool
uuid_regex = is_group 8 (
    is_dash
      (is_group 4 (is_dash (is_group 4 (is_dash (is_group 4 (is_dash (is_group 12 is_end))))))))

-- A header that is empty counts as missing.
abbrev pub given_header : Option String → Option String
given_header none = none
given_header (some header) = if str_eq header "" then none else some header

abbrev has_tenant : Option ℕ → Bool
has_tenant none = false
has_tenant (some id) = true

-- The request's user and the events once the guard lets a request through.
pub record Passed : Type 0 where
  pub user : Option RequestUser
  pub events : List GuardEvent

abbrev pub passes : Option RequestUser → List GuardEvent → Result Passed
passes user events = ok (record { user = user; events = events })

unfoldable pub super_admin_tenant :
    (String → ℕ) → List ℕ → Option String → RequestUser → Result Passed
unfolding uuid_regex
super_admin_tenant id_of tenants header user = elim (given_header header) [
  | none ↦ passes (some user) []
  | some asked ↦
      if not (uuid_regex asked)
      then err (bad_request "x-tenant-id header must be a valid UUID")
      else if not (contains tenants (id_of asked))
      then err (bad_request "Tenant not found")
      else passes (some (record user { tenant_id = some (id_of asked) }))
          (super_admin_tenant_access (id_of asked) user.sub (id_of asked) ∷ [])
]

unfoldable pub tenant_guard :
    (String → ℕ) → List ℕ → Bool → Option String → Option RequestUser → Result Passed
unfolding super_admin_tenant
tenant_guard id_of tenants is_public header user = if is_public then passes user [] else elim user [
  | none ↦ err (forbidden "No authenticated user found")
  | some u ↦
      if u.is_super_admin
      then super_admin_tenant id_of tenants header u
      else if not (has_tenant u.tenant_id)
      then err (forbidden "User is not associated with any tenant")
      else passes (some u) []
]

abbrev pub has_permission : Option (List String) → String → Bool
has_permission none permission = false
has_permission (some granted) permission = any (λ p. str_eq p permission) granted

abbrev has_all : List String → RequestUser → Bool
has_all [] u = true
has_all (p ∷ ps) u = has_permission u.permissions p && has_all ps u

unfoldable pub permissions_guard : Option (List String) → Option RequestUser → Result (Unit {0})
permissions_guard none user = ok tt
permissions_guard (some []) user = ok tt
permissions_guard (some (p ∷ ps)) none = err (forbidden "No authenticated user found")
permissions_guard (some (p ∷ ps)) (some u) =
    if u.is_super_admin
    then ok tt
    else if has_all (p ∷ ps) u
    then ok tt
    else err (forbidden "Insufficient permissions")

unfoldable pub super_admin_guard : Option RequestUser → Result (Unit {0})
super_admin_guard none = err (forbidden "Super-admin access required")
super_admin_guard (some u) =
    if u.is_super_admin then ok tt else err (forbidden "Super-admin access required")

unfoldable pub payments_enabled_guard : Bool → Result (Unit {0})
payments_enabled_guard enabled =
    if enabled then ok tt else err (unavailable "Payments are currently disabled")
