-- ===== src/Auth/Laws.antt =====
-- What the calls of the auth service do to the users' rows: none is lost, and no token version falls.
use Prim.Native.String.{String}
use wash_flow.Prelude.{
  ℕ, Bool, ◌⊎◌, ◌≡◌, ◌≤◌, refl, ap, sym, subst, ◌∙◌, false, some, List, [], ◌∷◌, arith, ok, err,
  Result, find?, ◌==◌, Option-cases, Bool-cases, inl, inr, find?-update_where,
  find?-update_where_ne,
}
use wash_flow.Auth.{
  Account, AuthDb, AuthEvent, login_succeeded, find_account, find_by_email, update_user, usable,
  with_next_version,
}
use wash_flow.Auth.Sessions.{
  Tokens, LoginDto, JwtPayload, login, refresh_tokens, logout, with_failure, forgiven, ended_with,
  generate_tokens, permissions_of, needs_forgiving, is_locked,
}
use wash_flow.Auth.Passwords.{
  ChangePasswordDto, ResetPasswordDto, change_password, forgot_password, reset_password,
  with_password, with_reset_password, find_token, valid_token,
}

-- Each user of before is there, with a token version that is no lower.
abbrev pub Keeps : AuthDb → AuthDb → Type 0
Keeps db db' =
    (id : ℕ) (u : Account)
    → find_account db id ≡ some u
    → (u' : Account) × (find_account db' id ≡ some u') × (u.token_version ≤ u'.token_version)

pub Keeps-refl : (db : AuthDb) → Keeps db db
Keeps-refl db id u found = (u, found, omega arith)

pub find_account-update_user :
    (db : AuthDb) (id : ℕ) (change : Account → Account) (u : Account)
    → ((x : Account) → (change x).id ≡ x.id)
    → find_account db id ≡ some u
    → find_account (update_user id change db) id ≡ some (change u)
unfolding find_account update_user
find_account-update_user db id change u same found =
    find?-update_where (λ x. x.id == id) change db.users u (λ y e. ground (arith, same y)) found

find_account-update_user_ne :
    (db : AuthDb) (id other : ℕ) (change : Account → Account)
    → ((x : Account) → (change x).id ≡ x.id)
    → (other == id) ≡ false
    → find_account (update_user other change db) id ≡ find_account db id
unfolding find_account update_user
find_account-update_user_ne db id other change same apart =
    find?-update_where_ne (λ x. x.id == id) (λ x. x.id == other) change db.users
      (λ y e. ground (arith, same y))

pub update_user-Keeps :
    (db : AuthDb) (other : ℕ) (change : Account → Account)
    → ((x : Account) → (change x).id ≡ x.id)
    → ((x : Account) → x.token_version ≤ (change x).token_version)
    → Keeps db (update_user other change db)
update_user-Keeps db other change same rises id u found = elim (Bool-cases (other == id)) [
  | inl is_it ↦
      let it : other ≡ id = ground arith in
      (
        change u,
        subst (λ i. find_account (update_user i change db) id ≡ some (change u)) (sym it)
            (find_account-update_user db id change u same found),
        rises u,
      )
  | inr apart ↦ (u, find_account-update_user_ne db id other change same apart ∙ found, omega arith)
]

ended_with_db :
    (db : AuthDb) (events : List AuthEvent) (r : Result Tokens) → (ended_with db events r).db ≡ db
ended_with_db db events (err e) = refl
ended_with_db db events (ok tokens) = refl

-- The users' rows after a call: those of before, or with one user changed.
abbrev pub Writes : AuthDb → AuthDb → Type 0
Writes db db' =
    (db'.users ≡ db.users)
    ⊎ ((id : ℕ) × (change : Account → Account) × ((x : Account) → (change x).id ≡ x.id)
        × ((x : Account) → x.token_version ≤ (change x).token_version)
        × (db'.users ≡ (update_user id change db).users))

pub Writes-Keeps : (db db' : AuthDb) → Writes db db' → Keeps db db'
unfolding find_account
Writes-Keeps db db' w id u found = elim w [
  | inl same ↦ (u, ground arith, omega arith)
  | inr (other, change, keeps_id, rises, same) ↦
      let (u', there, risen) = update_user-Keeps db other change keeps_id rises id u found in
      (u', ap (λ us. find? (λ (x : Account). x.id == id) us) same ∙ there, risen)
]

pub login-Writes :
    (verify : String → String → Bool) (dto : LoginDto) (now : ℕ) (db : AuthDb)
    → Writes db (login verify dto now db).db
unfolding login
login-Writes verify dto now db = elim (Option-cases (usable (find_by_email db dto.email))) [
  | inl missing ↦ inl (ground arith)
  | inr (u, found) ↦ elim (Bool-cases (is_locked u.account_locked_until now)) [
    | inl locked ↦ inl (ground arith)
    | inr unlocked ↦ elim (Bool-cases (verify u.password_hash dto.password)) [
      | inr wrong ↦ inr (u.id, with_failure now, (λ x. refl), (λ x. omega arith), ground arith)
      | inl right ↦ elim (Bool-cases (needs_forgiving u)) [
        | inl failed_before ↦
            let kept =
              ended_with_db (update_user u.id forgiven db)
                (login_succeeded u.tenant_id u.id u.email ∷ [])
                (generate_tokens db u (permissions_of u.role)) in
            inr (u.id, forgiven, (λ x. refl), (λ x. omega arith), ground arith)
        | inr clean ↦
            let kept =
              ended_with_db db (login_succeeded u.tenant_id u.id u.email ∷ [])
                (generate_tokens db u (permissions_of u.role)) in
            inl (ground arith)
      ]
    ]
  ]
]

pub refresh_tokens-Writes :
    (payload : JwtPayload) (db : AuthDb) → Writes db (refresh_tokens payload db).db
unfolding refresh_tokens
refresh_tokens-Writes payload db = elim (Option-cases (usable (find_account db payload.sub))) [
  | inl missing ↦ inl (ground arith)
  | inr (u, found) ↦
      let kept = ended_with_db db [] (generate_tokens db u (permissions_of u.role)) in
      inl (ground arith)
]

pub logout-Writes :
    (user_id tenant_id : ℕ) (db : AuthDb) → Writes db (logout user_id tenant_id db).db
unfolding logout
logout-Writes user_id tenant_id db = elim (Option-cases (find_account db user_id)) [
  | inl missing ↦ inl (ground arith)
  | inr (u, found) ↦ inr (user_id, with_next_version, (λ x. refl), (λ x. omega arith), ground arith)
]

pub change_password-Writes :
    (verify : String → String → Bool) (hash : String → String) (user_id : ℕ)
    (dto : ChangePasswordDto) (db : AuthDb)
    → Writes db (change_password verify hash user_id dto db).db
unfolding change_password
change_password-Writes verify hash user_id dto db =
    elim (Option-cases (usable (find_account db user_id))) [
      | inl missing ↦ inl (ground arith)
      | inr (u, found) ↦ elim (Bool-cases (verify u.password_hash dto.current_password)) [
        | inr wrong ↦ inl (ground arith)
        | inl right ↦ elim (Bool-cases (verify u.password_hash dto.new_password)) [
          | inl same ↦ inl (ground arith)
          | inr new ↦ inr (
            user_id,
            with_password (hash dto.new_password),
            (λ x. refl),
            (λ x. omega arith),
            ground arith,
          )
        ]
      ]
    ]

pub forgot_password-Writes :
    (digest : String → String) (token email : String) (now : ℕ) (db : AuthDb)
    → Writes db (forgot_password digest token email now db).db
unfolding forgot_password
forgot_password-Writes digest token email now db =
    elim (Option-cases (usable (find_by_email db email))) [
      | inl missing ↦ inl (ground arith)
      | inr (u, found) ↦ inl (ground arith)
    ]

pub reset_password-Writes :
    (digest hash : String → String) (dto : ResetPasswordDto) (now : ℕ) (db : AuthDb)
    → Writes db (reset_password digest hash dto now db).db
unfolding reset_password update_user
reset_password-Writes digest hash dto now db =
    elim (Option-cases (valid_token now (find_token db (digest dto.token)))) [
      | inl missing ↦ inl (ground arith)
      | inr (t, valid) ↦ elim (Option-cases (find_account db t.user_id)) [
        | inl lost ↦ inl (ground arith)
        | inr (u, found) ↦ inr (
          t.user_id,
          with_reset_password (hash dto.new_password),
          (λ x. refl),
          (λ x. omega arith),
          ground arith,
        )
      ]
    ]
