-- ===== src/Auth/Tests.antt =====
-- A user whose password is guessed at, who asks for a new one, and who logs out.
use Prim.Native.String.{String}
use text.Mathlib.Text.{◌==◌ as str_eq}
use text.Mathlib.TextEquality.{eq_iff}
use wash_flow.Prelude.{
  ℕ, ◌≡◌, true, false, refl, none, some, List, [], ◌∷◌, unauthorized, arith, ok, err,
}
use wash_flow.Orders.Transaction.{returned, threw, http}
use wash_flow.Auth.{Account, AuthDb, PasswordResetToken, find_account, find_by_email, throws}
use wash_flow.Auth.Sessions.{
  LoginDto, JwtPayload, TokenType, payload_of, login, logout, refresh_tokens, validate_access,
  validate_refresh,
}
use wash_flow.Auth.Passwords.{ResetPasswordDto, find_token, reset_password}
use wash_flow.Auth.Revoked.{by_logout, start, logs_in, Revokes-refresh_tokens}
use wash_flow.Auth.Lockout.{Guess, guesses, guesses-login}
use wash_flow.Auth.Resets.{reset_password-login, tokens_for}

abbrev plain : String → String
plain s = s

abbrev ada : Account
ada = record {
  id = 9;
  tenant_id = 1;
  branch_id = none;
  email = "ada@wash";
  password_hash = "suds";
  is_active = true;
  is_super_admin = false;
  token_version = 3;
  failed_login_attempts = 2;
  account_locked_until = none;
  role = none;
  deleted_at = none;
}

abbrev asked_reset : PasswordResetToken
asked_reset = record { user_id = 9; token = "t1"; expires_at = 5000; used_at = none }

abbrev accounts : AuthDb
accounts = record {
  users = ada ∷ [];
  tenants = 1 ∷ [];
  branches = [];
  reset_tokens = asked_reset ∷ [];
}

abbrev wrong : ℕ → Guess
wrong at = record { password = "soap"; at = at }

abbrev three_guesses : List Guess
three_guesses = wrong 100 ∷ wrong 200 ∷ wrong 300 ∷ []

finds_ada : find_by_email accounts "ada@wash" ≡ some ada
unfolding find_by_email
finds_ada = refl

has_ada : find_account accounts 9 ≡ some ada
unfolding find_account
has_ada = refl

has_token : find_token accounts "t1" ≡ some asked_reset
unfolding find_token
has_token = refl

guesses-login_example :
    let db = guesses str_eq "ada@wash" three_guesses accounts in
    login str_eq (record { email = "ada@wash"; password = "suds" }) 4000 db
    ≡ throws db [] (unauthorized "Account is temporarily locked. Please try again later.")
guesses-login_example =
    guesses-login str_eq "ada@wash" three_guesses accounts ada 100 4000 "suds" finds_ada refl refl
      (omega arith) (omega arith)
      ((refl, omega arith), ((refl, omega arith), ((refl, omega arith), tt))) (omega arith)

abbrev old_token : JwtPayload
old_token = payload_of ada [] TokenType.refresh

abbrev logged_out_db : AuthDb
logged_out_db = (logout 9 1 accounts).db

logs_out_fine : (logout 9 1 accounts).outcome ≡ returned tt
unfolding logout
logs_out_fine = refl

Revokes-refresh_tokens_example :
    let dto : LoginDto = record { email = "ada@wash"; password = "suds" } in
    (message : String) × ((refresh_tokens old_token
        (login str_eq dto 50 (logout 9 1 accounts).db).db).outcome
      ≡ threw (http (unauthorized message)))
Revokes-refresh_tokens_example =
    let dto : LoginDto = record { email = "ada@wash"; password = "suds" } in
    Revokes-refresh_tokens str_eq plain plain accounts (logout 9 1 accounts).db
      (login str_eq dto 50 (logout 9 1 accounts).db).db ada old_token has_ada (omega arith)
      (by_logout 1 logs_out_fine) (logs_in dto 50 start)

reset_password-login_example :
    let dto : ResetPasswordDto = record { token = "t1"; new_password = "foam" } in
    (login str_eq
      (record { email = "ada@wash"; password = "foam" })
      2000
      (reset_password plain plain dto 1000 accounts).db).outcome
    ≡ returned (tokens_for (record ada { token_version = 4 }))
reset_password-login_example =
    reset_password-login str_eq plain plain (record { token = "t1"; new_password = "foam" }) 1000
      2000 accounts asked_reset ada (λ p. (eq_iff p p).1 refl) has_token refl has_ada finds_ada refl
      refl

refuses_access_token :
    validate_refresh (payload_of ada [] TokenType.access) ≡ err (unauthorized "Invalid token type")
unfolding validate_refresh
refuses_access_token = refl

admits_access_token :
    validate_access (payload_of ada [] TokenType.access) ≡ ok (payload_of ada [] TokenType.access)
unfolding validate_access
admits_access_token = refl
