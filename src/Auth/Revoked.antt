-- ===== src/Auth/Revoked.antt =====
-- The histories of the auth service, and the refresh tokens that they leave in force.
use Prim.Native.String.{String}
use wash_flow.Prelude.{
  ℕ, Bool, ◌≡◌, ◌≤◌, ◌+◌, refl, some, arith, unauthorized, is_some, ltb, ◌||◌, Option-cases,
  Bool-cases, inl, inr,
}
use wash_flow.Orders.Transaction.{returned, threw, http}
use wash_flow.Auth.{
  Account, AuthDb, find_account, update_user, is_usable, with_next_version, PasswordResetToken,
}
use wash_flow.Auth.Sessions.{LoginDto, JwtPayload, login, refresh_tokens, logout}
use wash_flow.Auth.Passwords.{
  ChangePasswordDto, ResetPasswordDto, change_password, forgot_password, reset_password,
  with_password, with_reset_password, find_token, valid_token,
}
use wash_flow.Auth.Laws.{
  Keeps, Keeps-refl, Writes-Keeps, login-Writes, refresh_tokens-Writes, logout-Writes,
  change_password-Writes, forgot_password-Writes, reset_password-Writes, find_account-update_user,
}

-- What may happen between two calls: another call, however it ends, or a change of the rest of the
-- program, which may add users but neither removes one nor lowers a token version.
pub data History (verify : String → String → Bool) (digest hash : String → String) (db : AuthDb)
    : AuthDb → Type 0 where
  start : History verify digest hash db db
  logs_in :
      {d : AuthDb} (dto : LoginDto) (now : ℕ)
      → History verify digest hash db d
      → History verify digest hash db (login verify dto now d).db
  refreshes :
      {d : AuthDb} (payload : JwtPayload)
      → History verify digest hash db d
      → History verify digest hash db (refresh_tokens payload d).db
  logs_out :
      {d : AuthDb} (user_id tenant_id : ℕ)
      → History verify digest hash db d
      → History verify digest hash db (logout user_id tenant_id d).db
  changes_password :
      {d : AuthDb} (user_id : ℕ) (dto : ChangePasswordDto)
      → History verify digest hash db d
      → History verify digest hash db (change_password verify hash user_id dto d).db
  forgets :
      {d : AuthDb} (token email : String) (now : ℕ)
      → History verify digest hash db d
      → History verify digest hash db (forgot_password digest token email now d).db
  resets :
      {d : AuthDb} (dto : ResetPasswordDto) (now : ℕ)
      → History verify digest hash db d
      → History verify digest hash db (reset_password digest hash dto now d).db
  elsewhere :
      {d d' : AuthDb}
      → History verify digest hash db d
      → Keeps d d'
      → History verify digest hash db d'

-- The calls that revoke the tokens of a user, when they return.
pub data Revokes (verify : String → String → Bool) (digest hash : String → String) (db : AuthDb)
    (id : ℕ) : AuthDb → Type 0 where
  by_logout :
      (tenant_id : ℕ)
      → (logout id tenant_id db).outcome ≡ returned tt
      → Revokes verify digest hash db id (logout id tenant_id db).db
  by_change :
      (dto : ChangePasswordDto)
      → (change_password verify hash id dto db).outcome ≡ returned tt
      → Revokes verify digest hash db id (change_password verify hash id dto db).db
  by_reset :
      (dto : ResetPasswordDto) (now : ℕ) (t : PasswordResetToken)
      → find_token db (digest dto.token) ≡ some t
      → t.user_id ≡ id
      → (reset_password digest hash dto now db).outcome ≡ returned tt
      → Revokes verify digest hash db id (reset_password digest hash dto now db).db

module _ (verify : String → String → Bool) (digest hash : String → String) where
  Keeps-trans : (a b c : AuthDb) → Keeps a b → Keeps b c → Keeps a c
  Keeps-trans a b c f g id u found =
      let (v, there, risen) = f id u found in
      let (w, then_there, then_risen) = g id v there in (w, then_there, omega arith)

  History-Keeps : (db db' : AuthDb) → History verify digest hash db db' → Keeps db db'
  History-Keeps db _ start = Keeps-refl db
  History-Keeps db _ (logs_in {d} dto now h) =
      Keeps-trans db d _ (History-Keeps db d h) (Writes-Keeps d _ (login-Writes verify dto now d))
  History-Keeps db _ (refreshes {d} payload h) =
      Keeps-trans db d _ (History-Keeps db d h) (Writes-Keeps d _ (refresh_tokens-Writes payload d))
  History-Keeps db _ (logs_out {d} user_id tenant_id h) =
      Keeps-trans db d _ (History-Keeps db d h)
        (Writes-Keeps d _ (logout-Writes user_id tenant_id d))
  History-Keeps db _ (changes_password {d} user_id dto h) =
      Keeps-trans db d _ (History-Keeps db d h)
        (Writes-Keeps d _ (change_password-Writes verify hash user_id dto d))
  History-Keeps db _ (forgets {d} token email now h) =
      Keeps-trans db d _ (History-Keeps db d h)
        (Writes-Keeps d _ (forgot_password-Writes digest token email now d))
  History-Keeps db _ (resets {d} dto now h) =
      Keeps-trans db d _ (History-Keeps db d h)
        (Writes-Keeps d _ (reset_password-Writes digest hash dto now d))
  History-Keeps db db' (elsewhere {d} h keeps) = Keeps-trans db d db' (History-Keeps db d h) keeps

  logout-raises :
      (id tenant_id : ℕ) (db : AuthDb) (u : Account)
      → find_account db id ≡ some u
      → (u' : Account) × (find_account (logout id tenant_id db).db id ≡ some u')
        × (u.token_version + 1 ≤ u'.token_version)
  unfolding logout
  logout-raises id tenant_id db u found =
      let there = find_account-update_user db id with_next_version u (λ x. refl) found in
      (with_next_version u, ground arith, omega arith)

  change_password-raises :
      (id : ℕ) (dto : ChangePasswordDto) (db : AuthDb) (u : Account)
      → find_account db id ≡ some u
      → (change_password verify hash id dto db).outcome ≡ returned tt
      → (u' : Account) × (find_account (change_password verify hash id dto db).db id ≡ some u')
        × (u.token_version + 1 ≤ u'.token_version)
  unfolding change_password
  change_password-raises id dto db u found h =
      let there =
        find_account-update_user db id (with_password (hash dto.new_password)) u (λ x. refl)
          found in
      elim (Bool-cases (is_usable u)) [
        | inr gone ↦ absurd (ground arith)
        | inl fine ↦ elim (Bool-cases (verify u.password_hash dto.current_password)) [
          | inr wrong ↦ absurd (ground arith)
          | inl right ↦ elim (Bool-cases (verify u.password_hash dto.new_password)) [
            | inl same ↦ absurd (ground arith)
            | inr new ↦ (with_password (hash dto.new_password) u, ground arith, omega arith)
          ]
        ]
      ]

  reset_password-raises :
      (id : ℕ) (dto : ResetPasswordDto) (now : ℕ) (t : PasswordResetToken) (db : AuthDb)
      (u : Account)
      → find_account db id ≡ some u
      → find_token db (digest dto.token) ≡ some t
      → t.user_id ≡ id
      → (reset_password digest hash dto now db).outcome ≡ returned tt
      → (u' : Account) × (find_account (reset_password digest hash dto now db).db id ≡ some u')
        × (u.token_version + 1 ≤ u'.token_version)
  unfolding reset_password find_account update_user
  reset_password-raises id dto now t db u found asked owner h =
      let there =
        find_account-update_user db id (with_reset_password (hash dto.new_password)) u (λ x. refl)
          found in
      elim (Option-cases (valid_token now (some t))) [
        | inl spent ↦ absurd (ground arith)
        | inr (t', valid) ↦ elim (Bool-cases (is_some t.used_at || ltb t.expires_at now)) [
          | inl spent ↦ absurd (ground arith)
          | inr fresh ↦ (with_reset_password (hash dto.new_password) u, ground arith, omega arith)
        ]
      ]

  Revokes-raises :
      (db : AuthDb) (id : ℕ) (u : Account) (db' : AuthDb)
      → Revokes verify digest hash db id db'
      → find_account db id ≡ some u
      → (u' : Account) × (find_account db' id ≡ some u') × (u.token_version + 1 ≤ u'.token_version)
  Revokes-raises db id u _ (by_logout tenant_id h) found = logout-raises id tenant_id db u found
  Revokes-raises db id u _ (by_change dto h) found = change_password-raises id dto db u found h
  Revokes-raises db id u _ (by_reset dto now t asked owner h) found =
      reset_password-raises id dto now t db u found asked owner h

  refresh_tokens-refuses :
      (payload : JwtPayload) (db : AuthDb) (u : Account)
      → find_account db payload.sub ≡ some u
      → payload.token_version + 1 ≤ u.token_version
      → (message : String) × ((refresh_tokens payload db).outcome
          ≡ threw (http (unauthorized message)))
  unfolding refresh_tokens
  refresh_tokens-refuses payload db u found older = elim (Bool-cases (is_usable u)) [
    | inr gone ↦ ("User no longer active", ground arith)
    | inl fine ↦ ("Token has been revoked", ground arith)
  ]

  -- Once a user has logged out, or changed or reset the password, a refresh token that was issued to the user
  -- by then, which is one whose version is no higher than that of the user's row, is refused:
  -- whatever is called afterwards, and whatever else the program writes that removes no user and
  -- lowers no version.
  pub Revokes-refresh_tokens :
      (db db' db'' : AuthDb) (u : Account) (payload : JwtPayload)
      → find_account db payload.sub ≡ some u
      → payload.token_version ≤ u.token_version
      → Revokes verify digest hash db payload.sub db'
      → History verify digest hash db' db''
      → (message : String) × ((refresh_tokens payload db'').outcome
          ≡ threw (http (unauthorized message)))
  Revokes-refresh_tokens db db' db'' u payload found issued revoked h =
      let (u', there, raised) = Revokes-raises db payload.sub u db' revoked found in
      let (u'', later, kept) = History-Keeps db' db'' h payload.sub u' there in
      refresh_tokens-refuses payload db'' u'' later (omega arith)
