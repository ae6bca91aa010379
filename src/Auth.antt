-- ===== src/Auth.antt =====
-- src/modules/auth/auth.service.ts: logins with their lockout, the tokens that they issue, the change
-- and the reset of passwords, and logout; `register` is left out. argon2 and SHA-256 are parameters. A
-- token stands for the payload that is signed; a user's row holds its role, as the queries join it.
pub mod Sessions
pub mod Passwords
mod Laws
mod Revoked
mod Lockout
mod Resets
mod Tests
use Prim.Native.String.{String}
use text.Mathlib.Text.{◌==◌ as str_eq}
use wash_flow.Prelude.{
  ℕ, ◌+◌, Bool, Option, none, some, List, ◌&&◌, ◌==◌, is_none, find?, update_where, Error,
  if◌then◌else◌,
}
use wash_flow.Database.{Branch}
use wash_flow.Orders.Transaction.{Outcome, threw, Thrown, http, database, known_request_error}

pub record Role : Type 0 where
  pub permissions : List String
  pub deleted_at : Option ℕ

pub record Account : Type 0 where
  pub id : ℕ
  pub tenant_id : ℕ
  pub branch_id : Option ℕ
  pub email : String
  pub password_hash : String
  pub is_active : Bool
  pub is_super_admin : Bool
  pub token_version : ℕ
  pub failed_login_attempts : ℕ
  pub account_locked_until : Option ℕ
  pub role : Option Role
  pub deleted_at : Option ℕ

pub record PasswordResetToken : Type 0 where
  pub user_id : ℕ
  pub token : String
  pub expires_at : ℕ
  pub used_at : Option ℕ

pub record AuthDb : Type 0 where
  pub users : List Account
  pub tenants : List ℕ
  pub branches : List Branch
  pub reset_tokens : List PasswordResetToken

pub data AuthEvent : Type 0 where
  login_succeeded : ℕ → ℕ → String → AuthEvent
  login_failed : String → String → AuthEvent
  account_locked : ℕ → ℕ → String → ℕ → AuthEvent
  password_changed : ℕ → ℕ → String → AuthEvent
  password_reset_requested : String → AuthEvent
  logged_out : ℕ → ℕ → AuthEvent

-- An update finds no row.
abbrev pub record_not_found : Thrown
record_not_found = database (known_request_error "P2025" none)

pub record Ended (A : Type 0) : Type 0 where
  pub outcome : Outcome A
  pub db : AuthDb
  pub events : List AuthEvent

abbrev pub throws : {A : Type 0} → AuthDb → List AuthEvent → Error → Ended A
throws db events e = record { outcome = threw (http e); db = db; events = events }

unfoldable pub find_account : AuthDb → ℕ → Option Account
find_account db id = find? (λ u. u.id == id) db.users

unfoldable pub find_by_email : AuthDb → String → Option Account
find_by_email db email = find? (λ u. str_eq u.email email) db.users

unfoldable pub update_user : ℕ → (Account → Account) → AuthDb → AuthDb
update_user id change db = record db { users = update_where (λ u. u.id == id) change db.users }

-- `!user || !user.isActive || user.deletedAt` is false.
abbrev pub is_usable : Account → Bool
is_usable u = u.is_active && is_none u.deleted_at

abbrev pub usable : Option Account → Option Account
usable none = none
usable (some u) = if is_usable u then some u else none

abbrev pub with_next_version : Account → Account
with_next_version u = record u { token_version = u.token_version + 1 }
