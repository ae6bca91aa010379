-- ===== src/Auth/Lockout.antt =====
-- How guesses at a password end in a lockout.
use Prim.Native.String.{String}
use text.Mathlib.Text.{◌==◌ as str_eq}
use wash_flow.Prelude.{
  ℕ, Bool, ◌⊎◌, ◌≡◌, ◌≤◌, ◌<◌, ◌+◌, refl, ap, subst, ◌∙◌, true, false, none, some, List, [], ◌∷◌,
  arith, unauthorized, ◌==◌, Bool-cases, inl, inr, All, length, leb, find?-update_where_at,
}
use wash_flow.Auth.{Account, AuthDb, find_by_email, update_user, is_usable, throws, Ended}
use wash_flow.Auth.Sessions.{
  LoginDto, Tokens, login, with_failure, lockout_duration_ms, max_failed_attempts, is_locked,
}

pub record Guess : Type 0 where
  pub password : String
  pub at : ℕ

-- Logins with the passwords guessed, one after the other.
unfoldable pub guesses : (String → String → Bool) → String → List Guess → AuthDb → AuthDb
unfolding login
guesses verify email [] db = db
guesses verify email (g ∷ gs) db =
    guesses verify email gs
      (login verify (record { email = email; password = g.password }) g.at db).db

abbrev pub IsWrong : (String → String → Bool) → String → ℕ → Guess → Type 0
IsWrong verify hashed earliest g = (verify hashed g.password ≡ false) × (earliest ≤ g.at)

find_by_email-update_user :
    (db : AuthDb) (email : String) (u : Account) (now : ℕ)
    → find_by_email db email ≡ some u
    → find_by_email (update_user u.id (with_failure now) db) email ≡ some (with_failure now u)
unfolding find_by_email update_user
find_by_email-update_user db email u now found =
    find?-update_where_at (λ x. str_eq x.email email) (λ x. x.id == u.id) (with_failure now)
      db.users u (λ y. refl) (ground arith) found

module _ (verify : String → String → Bool) (email hashed : String) (earliest : ℕ) where
  -- An account that is locked for long enough, or on which each guess is counted.
  abbrev IsHeldOr : ℕ → Account → Type 0
  IsHeldOr n u =
      ((until : ℕ) × (u.account_locked_until ≡ some until)
        × (earliest + lockout_duration_ms ≤ until))
      ⊎ ((u.account_locked_until ≡ none)
          × (u.failed_login_attempts ≡ n)
          × (n < max_failed_attempts))

  abbrev IsCounted : ℕ → AuthDb → Type 0
  IsCounted n db =
      (u : Account) × (find_by_email db email ≡ some u)
      × (is_usable u ≡ true)
      × (u.password_hash ≡ hashed)
      × IsHeldOr n u

  after_failure :
      (n : ℕ) (u : Account) (now : ℕ)
      → earliest ≤ now
      → IsHeldOr n u
      → IsHeldOr (n + 1) (with_failure now u)
  after_failure n u now after state =
      elim (Bool-cases (leb max_failed_attempts (u.failed_login_attempts + 1))) [
        | inl full ↦ inl (now + lockout_duration_ms, ground arith, omega arith)
        | inr room ↦ elim state [
          | inl (until, held, late) ↦ inl (until, ground arith, late)
          | inr (free, counted, few) ↦ inr (ground arith, omega arith, ground arith)
        ]
      ]

  login_locked :
      (dto : LoginDto) (now : ℕ) (db : AuthDb) (u : Account) (until : ℕ)
      → find_by_email db dto.email ≡ some u
      → is_usable u ≡ true
      → u.account_locked_until ≡ some until
      → now < until
      → login verify dto now db
        ≡ throws db [] (unauthorized "Account is temporarily locked. Please try again later.")
  unfolding login
  login_locked dto now db u until found fine locked early = ground arith

  login_wrong :
      (dto : LoginDto) (now : ℕ) (db : AuthDb) (u : Account)
      → find_by_email db dto.email ≡ some u
      → is_usable u ≡ true
      → is_locked u.account_locked_until now ≡ false
      → verify u.password_hash dto.password ≡ false
      → (login verify dto now db).db ≡ update_user u.id (with_failure now) db
  unfolding login
  login_wrong dto now db u found fine unlocked wrong = ground arith

  guess-IsCounted :
      (n : ℕ) (g : Guess) (db : AuthDb)
      → IsWrong verify hashed earliest g
      → IsCounted n db
      → IsCounted
          (n + 1)
          (login verify (record { email = email; password = g.password }) g.at db).db
  guess-IsCounted n g db (wrong, after) (u, found, fine, same_hash, state) =
      let dto : LoginDto = record { email = email; password = g.password } in
      elim (Bool-cases (is_locked u.account_locked_until g.at)) [
        | inl locked ↦ elim state [
          | inr (free, counted, few) ↦ absurd (ground arith)
          | inl (until, held, late) ↦
              let refusal = login_locked dto g.at db u until found fine held (ground arith) in
              (
                u,
                ap (λ (r : Ended Tokens). find_by_email r.db email) refusal ∙ found,
                fine,
                same_hash,
                inl (until, held, late),
              )
        ]
        | inr unlocked ↦
            let counts = login_wrong dto g.at db u found fine unlocked (ground arith) in
            (
              with_failure g.at u,
              ap (λ d. find_by_email d email) counts
                  ∙ find_by_email-update_user db email u g.at found,
              fine,
              same_hash,
              after_failure n u g.at after state,
            )
      ]

  guesses-IsCounted :
      (gs : List Guess) (n : ℕ) (db : AuthDb)
      → All (IsWrong verify hashed earliest) gs
      → IsCounted n db
      → IsCounted (n + length gs) (guesses verify email gs db)
  unfolding guesses
  guesses-IsCounted [] n db wrong counted = subst (λ k. IsCounted k db) (omega arith) counted
  guesses-IsCounted (g ∷ gs) n db (wrong, later) counted =
      let db' = (login verify (record { email = email; password = g.password }) g.at db).db in
      subst (λ k. IsCounted k (guesses verify email gs db')) (omega arith)
        (guesses-IsCounted gs (n + 1) db' later (guess-IsCounted n g db wrong counted))

-- Wrong guesses at the password of an account that is not locked, which with the failures counted
-- before make five, lock it: a login that comes after them, within thirty minutes of an instant that
-- none of them is before, is refused and changes nothing, also with the right password.
pub guesses-login :
    (verify : String → String → Bool) (email : String) (gs : List Guess) (db : AuthDb) (u : Account)
    (earliest now : ℕ) (password : String)
    → find_by_email db email ≡ some u
    → is_usable u ≡ true
    → u.account_locked_until ≡ none
    → u.failed_login_attempts < max_failed_attempts
    → max_failed_attempts ≤ u.failed_login_attempts + length gs
    → All (IsWrong verify u.password_hash earliest) gs
    → now < earliest + lockout_duration_ms
    → let db' = guesses verify email gs db in
      login verify (record { email = email; password = password }) now db'
      ≡ throws db' [] (unauthorized "Account is temporarily locked. Please try again later.")
guesses-login verify email gs db u earliest now password found fine free few enough wrong early =
    let (u', found', fine', same_hash, state) =
      guesses-IsCounted verify email u.password_hash earliest gs u.failed_login_attempts db wrong
        (u, found, fine, refl, inr (free, refl, few)) in
    elim state [
      | inr (free', counted, still_few) ↦ absurd (omega arith)
      | inl (until, held, late) ↦
          login_locked verify email u.password_hash earliest
            (record { email = email; password = password }) now (guesses verify email gs db) u'
            until found' fine' held (omega arith)
    ]
