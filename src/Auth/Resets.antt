-- ===== src/Auth/Resets.antt =====
-- A forgotten password: the new one logs in.
use Prim.Native.String.{String}
use text.Mathlib.Text.{◌==◌ as str_eq}
use wash_flow.Prelude.{
  ℕ, Bool, ◌≡◌, ◌+◌, refl, ap, ◌∙◌, true, false, none, some, arith, ◌==◌, ◌||◌, ltb, is_some,
  find?-update_where_at, find?_passes,
}
use wash_flow.Orders.Transaction.{returned}
use wash_flow.Auth.{
  Account, AuthDb, PasswordResetToken, find_account, find_by_email, update_user, is_usable,
}
use wash_flow.Auth.Sessions.{
  LoginDto, Tokens, TokenType, login, payload_of, permissions_of, generate_tokens,
  is_assigned_available,
}
use wash_flow.Auth.Passwords.{
  ResetPasswordDto, reset_password, find_token, with_reset_password, use_token,
}

abbrev pub tokens_for : Account → Tokens
tokens_for u = record {
  access_token = payload_of u (permissions_of u.role) TokenType.access;
  refresh_token = payload_of u (permissions_of u.role) TokenType.refresh;
}

login-returned :
    (verify : String → String → Bool) (dto : LoginDto) (now : ℕ) (db : AuthDb) (u : Account)
    → find_by_email db dto.email ≡ some u
    → is_usable u ≡ true
    → u.account_locked_until ≡ none
    → verify u.password_hash dto.password ≡ true
    → is_assigned_available db u.tenant_id u.branch_id ≡ true
    → (login verify dto now db).outcome ≡ returned (tokens_for u)
unfolding login generate_tokens
login-returned verify dto now db u found fine free right at_work = ground arith

reset_rows :
    (digest hash : String → String) (dto : ResetPasswordDto) (now : ℕ) (db : AuthDb)
    (t : PasswordResetToken) (u : Account)
    → find_token db (digest dto.token) ≡ some t
    → (is_some t.used_at || ltb t.expires_at now) ≡ false
    → find_account db t.user_id ≡ some u
    → (reset_password digest hash dto now db).db
      ≡ use_token
          (digest dto.token)
          now
          (update_user t.user_id (with_reset_password (hash dto.new_password)) db)
unfolding reset_password
reset_rows digest hash dto now db t u asked fresh found = ground arith

find_account-is :
    (db : AuthDb) (id : ℕ) (u : Account) → find_account db id ≡ some u → (u.id == id) ≡ true
unfolding find_account
find_account-is db id u found = find?_passes (λ x. x.id == id) db.users u found

reset_user :
    (digest hash : String → String) (dto : ResetPasswordDto) (now : ℕ) (db : AuthDb) (id : ℕ)
    (u : Account)
    → (u.id == id) ≡ true
    → find_by_email db u.email ≡ some u
    → find_by_email
        (use_token
          (digest dto.token)
          now
          (update_user id (with_reset_password (hash dto.new_password)) db))
        u.email
      ≡ some (with_reset_password (hash dto.new_password) u)
unfolding find_by_email update_user
reset_user digest hash dto now db id u is_it by_email =
    find?-update_where_at (λ x. str_eq x.email u.email) (λ x. x.id == id)
      (with_reset_password (hash dto.new_password)) db.users u (λ y. refl) is_it by_email

reset_branches :
    (digest hash : String → String) (dto : ResetPasswordDto) (now : ℕ) (db : AuthDb) (id : ℕ)
    (u : Account)
    → is_assigned_available db u.tenant_id u.branch_id ≡ true
    → is_assigned_available
        (use_token
          (digest dto.token)
          now
          (update_user id (with_reset_password (hash dto.new_password)) db))
        u.tenant_id
        u.branch_id
      ≡ true
unfolding update_user
reset_branches digest hash dto now db id u at_work = ground arith

-- A reset with a token that is neither used nor expired lifts every lockout of its user and lets
-- the new password log in at any instant, with tokens of the next version, if the hash of a password
-- verifies it, the user is active, is the only one with its e-mail address, and has no branch that is
-- closed.
pub reset_password-login :
    (verify : String → String → Bool) (digest hash : String → String) (dto : ResetPasswordDto)
    (now later : ℕ) (db : AuthDb) (t : PasswordResetToken) (u : Account)
    → ((p : String) → verify (hash p) p ≡ true)
    → find_token db (digest dto.token) ≡ some t
    → (is_some t.used_at || ltb t.expires_at now) ≡ false
    → find_account db t.user_id ≡ some u
    → find_by_email db u.email ≡ some u
    → is_usable u ≡ true
    → is_assigned_available db u.tenant_id u.branch_id ≡ true
    → (login verify
        (record { email = u.email; password = dto.new_password })
        later
        (reset_password digest hash dto now db).db).outcome
      ≡ returned (tokens_for (record u { token_version = u.token_version + 1 }))
reset_password-login verify digest hash dto now later db t u verifies asked fresh found by_email
      fine at_work =
    let db' = (reset_password digest hash dto now db).db in
    let changed = with_reset_password (hash dto.new_password) u in
    let rows = reset_rows digest hash dto now db t u asked fresh found in
    let same_place = find_account-is db t.user_id u found in
    let there : find_by_email db' u.email ≡ some changed =
      ap (λ d. find_by_email d u.email) rows
      ∙ reset_user digest hash dto now db t.user_id u same_place by_email in
    login-returned verify (record { email = u.email; password = dto.new_password }) later db'
      changed there fine refl (verifies dto.new_password)
      (ap (λ d. is_assigned_available d u.tenant_id u.branch_id) rows
        ∙ reset_branches digest hash dto now db t.user_id u at_work)
