-- ===== src/Auth/Passwords.antt =====
-- `changePassword`, `forgotPassword` and `resetPassword` of src/modules/auth/auth.service.ts. `verify`
-- is that of argon2, `hash` its hash with the salt that the call draws, and `digest` is SHA-256. The
-- e-mail with the new token is left out.
use Prim.Native.String.{String}
use text.Mathlib.Text.{◌==◌ as str_eq}
use wash_flow.Prelude.{
  ℕ, ◌+◌, ◌*◌, Bool, not, Option, none, some, List, [], ◌∷◌, ◌&&◌, ◌||◌, ltb, ◌==◌, is_none,
  is_some, find?, contains, update_where, unauthorized, bad_request, if◌then◌else◌, ◌++◌,
}
use wash_flow.Orders.Transaction.{returned, threw}
use wash_flow.Auth.{
  Account, AuthDb, PasswordResetToken, password_changed, password_reset_requested, record_not_found,
  Ended, throws, find_account, find_by_email, update_user, usable,
}

pub record ChangePasswordDto : Type 0 where
  pub current_password : String
  pub new_password : String

pub record ResetPasswordDto : Type 0 where
  pub token : String
  pub new_password : String

abbrev pub with_password : String → Account → Account
with_password hashed u = record u { password_hash = hashed; token_version = u.token_version + 1 }

abbrev pub with_reset_password : String → Account → Account
with_reset_password hashed u = record u {
  password_hash = hashed;
  token_version = u.token_version + 1;
  failed_login_attempts = 0;
  account_locked_until = none;
}

unfoldable pub change_password :
    (String → String → Bool) → (String → String) → ℕ → ChangePasswordDto → AuthDb → Ended (Unit {0})
unfolding find_account update_user
change_password verify hash user_id dto db = elim (usable (find_account db user_id)) [
  | none ↦ throws db [] (unauthorized "User not found or inactive")
  | some u ↦
      if not (verify u.password_hash dto.current_password)
      then throws db [] (bad_request "Current password is incorrect")
      else if verify u.password_hash dto.new_password
      then throws db [] (bad_request "New password must be different from the current password")
      else record {
        outcome = returned tt;
        db = update_user user_id (with_password (hash dto.new_password)) db;
        events = password_changed u.tenant_id u.id u.email ∷ [];
      }
]

abbrev pub expiry_ms : ℕ
expiry_ms = 60 * 60 * 1000

-- The rows of the tokens once a user asks for a new one: the unused ones of before are used up.
abbrev pub requested :
    (String → String) → String → ℕ → ℕ → List PasswordResetToken → List PasswordResetToken
requested digest token user_id now rows =
    update_where (λ t. t.user_id == user_id && is_none t.used_at)
      (λ t. record t { used_at = some now }) rows
    ++ (record {
      user_id = user_id;
      token = digest token;
      expires_at = now + expiry_ms;
      used_at = none;
    }
        ∷ [])

-- `token` is the one that the call draws.
unfoldable pub forgot_password : (String → String) → String → String → ℕ → AuthDb → Ended (Unit {0})
unfolding find_by_email
forgot_password digest token email now db = elim (usable (find_by_email db email)) [
  | none ↦ record { outcome = returned tt; db = db; events = [] }
  | some u ↦
      if contains db.tenants u.tenant_id
      then record {
        outcome = returned tt;
        db = record db { reset_tokens = requested digest token u.id now db.reset_tokens };
        events = password_reset_requested u.email ∷ [];
      }
      else record { outcome = returned tt; db = db; events = [] }
]

unfoldable pub find_token : AuthDb → String → Option PasswordResetToken
find_token db hashed = find? (λ t. str_eq t.token hashed) db.reset_tokens

abbrev pub valid_token : ℕ → Option PasswordResetToken → Option PasswordResetToken
valid_token now none = none
valid_token now (some t) = if is_some t.used_at || ltb t.expires_at now then none else some t

-- A row of a token is the only one with its hash.
abbrev pub use_token : String → ℕ → AuthDb → AuthDb
use_token hashed now db = record db {
  reset_tokens =
      update_where (λ t. str_eq t.token hashed) (λ t. record t { used_at = some now })
        db.reset_tokens;
}

unfoldable pub reset_password :
    (String → String) → (String → String) → ResetPasswordDto → ℕ → AuthDb → Ended (Unit {0})
unfolding find_account update_user find_token
reset_password digest hash dto now db = elim (valid_token now (find_token db (digest dto.token))) [
  | none ↦ throws db [] (bad_request "Invalid or expired reset token")
  | some t ↦ elim (find_account db t.user_id) [
    | none ↦ record { outcome = threw record_not_found; db = db; events = [] }
    | some u ↦ record {
      outcome = returned tt;
      db =
          use_token (digest dto.token) now
            (update_user t.user_id (with_reset_password (hash dto.new_password)) db);
      events = password_changed u.tenant_id u.id u.email ∷ [];
    }
  ]
]
