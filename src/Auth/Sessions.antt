-- ===== src/Auth/Sessions.antt =====
-- `login`, `refreshTokens`, `logout` and `generateTokens` of src/modules/auth/auth.service.ts.
use Prim.Native.String.{String}
use wash_flow.Prelude.{
  ℕ, ◌+◌, ◌*◌, Bool, true, false, not, Option, none, some, List, [], ◌∷◌, ◌&&◌, ◌||◌, ltb, leb,
  ◌==◌, is_none, is_some, find?, Result, ok, err, unauthorized, if◌then◌else◌, ◌++◌,
}
use wash_flow.Database.{Branch}
use wash_flow.Orders.Transaction.{returned, threw}
use wash_flow.Auth.{
  Role, Account, AuthDb, AuthEvent, login_succeeded, login_failed, account_locked, logged_out,
  record_not_found, Ended, throws, find_account, find_by_email, update_user, usable,
  with_next_version,
}

abbrev pub lockout_duration_ms : ℕ
lockout_duration_ms = 30 * 60 * 1000

abbrev pub max_failed_attempts : ℕ
max_failed_attempts = 5

pub data TokenType : Type 0 where
  access refresh : TokenType

pub record JwtPayload : Type 0 where
  pub sub : ℕ
  pub tenant_id : ℕ
  pub branch_id : Option ℕ
  pub email : String
  pub is_super_admin : Bool
  pub permissions : List String
  pub token_version : ℕ
  pub type : TokenType

pub record Tokens : Type 0 where
  pub access_token : JwtPayload
  pub refresh_token : JwtPayload

pub record LoginDto : Type 0 where
  pub email : String
  pub password : String

abbrev pub permissions_of : Option Role → List String
permissions_of none = []
permissions_of (some role) = if is_none role.deleted_at then role.permissions else []

abbrev pub payload_of : Account → List String → TokenType → JwtPayload
payload_of u permissions type = record {
  sub = u.id;
  tenant_id = u.tenant_id;
  branch_id = u.branch_id;
  email = u.email;
  is_super_admin = u.is_super_admin;
  permissions = permissions;
  token_version = u.token_version;
  type = type;
}

abbrev pub is_branch_available : Option Branch → Bool
is_branch_available none = false
is_branch_available (some branch) = is_none branch.deleted_at && branch.is_active

abbrev pub is_assigned_available : AuthDb → ℕ → Option ℕ → Bool
is_assigned_available db tenant_id none = true
is_assigned_available db tenant_id (some branch_id) =
    is_branch_available (find? (λ b. b.id == branch_id && b.tenant_id == tenant_id) db.branches)

unfoldable pub generate_tokens : AuthDb → Account → List String → Result Tokens
generate_tokens db u permissions =
    if is_assigned_available db u.tenant_id u.branch_id
    then ok (record {
      access_token = payload_of u permissions access;
      refresh_token = payload_of u permissions refresh;
    })
    else err (unauthorized "Assigned branch is unavailable")

abbrev pub ended_with : AuthDb → List AuthEvent → Result Tokens → Ended Tokens
ended_with db events (err e) = throws db [] e
ended_with db events (ok tokens) = record { outcome = returned tokens; db = db; events = events }

abbrev pub is_locked : Option ℕ → ℕ → Bool
is_locked none now = false
is_locked (some until) now = ltb now until

-- The row after another wrong password.
abbrev pub with_failure : ℕ → Account → Account
with_failure now u =
    let attempts = u.failed_login_attempts + 1 in
    record u {
      failed_login_attempts = attempts;
      account_locked_until =
          if leb max_failed_attempts attempts
          then some (now + lockout_duration_ms)
          else u.account_locked_until;
    }

abbrev pub lock_events : Account → List AuthEvent
lock_events u =
    let attempts = u.failed_login_attempts + 1 in
    if leb max_failed_attempts attempts
    then account_locked u.tenant_id u.id u.email attempts ∷ []
    else []

abbrev pub forgiven : Account → Account
forgiven u = record u { failed_login_attempts = 0; account_locked_until = none }

abbrev pub needs_forgiving : Account → Bool
needs_forgiving u = ltb 0 u.failed_login_attempts || is_some u.account_locked_until

-- `verify` is that of argon2: a stored hash, and a password.
unfoldable pub login : (String → String → Bool) → LoginDto → ℕ → AuthDb → Ended Tokens
unfolding find_by_email update_user generate_tokens
login verify dto now db = elim (usable (find_by_email db dto.email)) [
  | none ↦
      throws db (login_failed dto.email "Invalid credentials" ∷ [])
        (unauthorized "Invalid credentials")
  | some u ↦
      if is_locked u.account_locked_until now
      then throws db [] (unauthorized "Account is temporarily locked. Please try again later.")
      else if not (verify u.password_hash dto.password)
      then throws (update_user u.id (with_failure now) db)
          (lock_events u ++ (login_failed dto.email "Invalid password" ∷ []))
          (unauthorized "Invalid credentials")
      else ended_with (if needs_forgiving u then update_user u.id forgiven db else db)
          (login_succeeded u.tenant_id u.id u.email ∷ [])
          (generate_tokens db u (permissions_of u.role))
]

unfoldable pub refresh_tokens : JwtPayload → AuthDb → Ended Tokens
unfolding find_account generate_tokens
refresh_tokens payload db = elim (usable (find_account db payload.sub)) [
  | none ↦ throws db [] (unauthorized "User no longer active")
  | some u ↦
      if payload.token_version == u.token_version
      then ended_with db [] (generate_tokens db u (permissions_of u.role))
      else throws db [] (unauthorized "Token has been revoked")
]

unfoldable pub logout : ℕ → ℕ → AuthDb → Ended (Unit {0})
unfolding find_account update_user
logout user_id tenant_id db = elim (find_account db user_id) [
  | none ↦ record { outcome = threw record_not_found; db = db; events = [] }
  | some u ↦ record {
    outcome = returned tt;
    db = update_user user_id with_next_version db;
    events = logged_out tenant_id user_id ∷ [];
  }
]

-- `validate` of the strategies for the access and the refresh tokens.
unfoldable pub validate_refresh : JwtPayload → Result JwtPayload
validate_refresh payload = elim payload.type [
  | access ↦ err (unauthorized "Invalid token type")
  | refresh ↦ ok payload
]

unfoldable pub validate_access : JwtPayload → Result JwtPayload
validate_access payload = elim payload.type [
  | access ↦ ok payload
  | refresh ↦ err (unauthorized "Invalid token type")
]
