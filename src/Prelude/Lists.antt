-- ===== src/Prelude/Lists.antt =====
-- Lists measured by native numbers, and searched by Boolean tests.
use Prim.Native.Nat.{ℕ, suc, ◌+◌, ◌<◌}
use mathlib.Core.Logic.{inl, inr}
use mathlib.Core.Path.{◌≡◌, refl, ap, sym, subst}
use mathlib.Core.Bool.{Bool, true, false, ◌&&◌, ◌||◌}
use mathlib.Core.Option.{Option, none, some}
use mathlib.Core.List.{Memᴰ, List, [], ◌∷◌, ◌++◌, map}
use native.Mathlib.Omega.{arith}
use wash_flow.Prelude.Tests.{if◌then◌else◌, ◌==◌, leb, Bool-cases}

module _ {ℓ} {A : Type ℓ} where
  abbrev pub length : List A → ℕ
  length [] = 0
  length (x ∷ xs) = suc (length xs)

  abbrev pub filter : (A → Bool) → List A → List A
  filter p [] = []
  filter p (x ∷ xs) = let rest = filter p xs in if p x then x ∷ rest else rest

  -- `Array.prototype.some`
  abbrev pub any : (A → Bool) → List A → Bool
  any p [] = false
  any p (x ∷ xs) = p x || any p xs

  abbrev pub all : (A → Bool) → List A → Bool
  all p [] = true
  all p (x ∷ xs) = p x && all p xs

  -- The first row that passes: `findFirst` and `Array.prototype.find`.
  abbrev pub find? : (A → Bool) → List A → Option A
  find? p [] = none
  find? p (x ∷ xs) = let rest = find? p xs in if p x then some x else rest

  -- The rows that pass, changed.
  abbrev pub update_where : (A → Bool) → (A → A) → List A → List A
  update_where p f [] = []
  update_where p f (x ∷ xs) = (if p x then f x else x) ∷ update_where p f xs

  abbrev pub All {κ} : (A → Type κ) → List A → Type κ
  All P [] = Unit
  All P (x ∷ xs) = P x × All P xs

  pub length-append : (xs ys : List A) → length (xs ++ ys) ≡ length xs + length ys
  length-append [] ys = omega arith
  length-append (x ∷ xs) ys = omega (arith, length-append xs ys)

abbrev pub sum : List ℕ → ℕ
sum [] = 0
sum (x ∷ xs) = x + sum xs

-- `Array.prototype.includes`
abbrev pub contains : List ℕ → ℕ → Bool
contains [] a = false
contains (x ∷ xs) a = x == a || contains xs a

module _ {ℓ} {A : Type ℓ} where
  -- The row found passes the test.
  pub find?_passes : (p : A → Bool) (xs : List A) (x : A) → find? p xs ≡ some x → p x ≡ true
  find?_passes p [] x h = cc
  find?_passes p (y ∷ ys) x h = ground (arith, find?_passes p ys x)

  pub find?-update_where :
      (p : A → Bool) (f : A → A) (xs : List A) (x : A)
      → ((y : A) → p y ≡ true → p (f y) ≡ true)
      → find? p xs ≡ some x
      → find? p (update_where p f xs) ≡ some (f x)
  find?-update_where p f [] x keep h = cc
  find?-update_where p f (y ∷ ys) x keep h =
      ground (arith, keep y, find?-update_where p f ys x keep)

  pub find?-update_where_at :
      (p q : A → Bool) (f : A → A) (xs : List A) (x : A)
      → ((y : A) → p (f y) ≡ p y)
      → q x ≡ true
      → find? p xs ≡ some x
      → find? p (update_where q f xs) ≡ some (f x)
  find?-update_where_at p q f [] x same at h = cc
  find?-update_where_at p q f (y ∷ ys) x same at h =
      ground (arith, same y, find?-update_where_at p q f ys x same at)

  pub find?-Memᴰ : (p : A → Bool) (xs : List A) (x : A) → find? p xs ≡ some x → Memᴰ x xs
  find?-Memᴰ p [] x h = cc
  find?-Memᴰ p (y ∷ ys) x h = elim (Bool-cases (p y)) [
    | inl hit ↦ Memᴰ.head (ground arith)
    | inr miss ↦ Memᴰ.tail (find?-Memᴰ p ys x (ground arith))
  ]

  -- A change of rows that another test passes over is not seen by it.
  pub find?-update_where_ne :
      (p q : A → Bool) (f : A → A) (xs : List A)
      → ((y : A) → q y ≡ true → (p y ≡ false) × (p (f y) ≡ false))
      → find? p (update_where q f xs) ≡ find? p xs
  find?-update_where_ne p q f [] apart = refl
  find?-update_where_ne p q f (y ∷ ys) apart =
      ground (arith, apart y, find?-update_where_ne p q f ys apart)

  pub All-intro {κ} : (P : A → Type κ) (xs : List A) → ((x : A) → P x) → All P xs
  All-intro P [] h = tt
  All-intro P (x ∷ xs) h = (h x, All-intro P xs h)

  pub All-map {κ ι} :
      (P : A → Type κ) (Q : A → Type ι) (xs : List A) → ((x : A) → P x → Q x) → All P xs → All Q xs
  All-map P Q [] h a = tt
  All-map P Q (x ∷ xs) h a = (h x a.0, All-map P Q xs h a.1)

  -- What holds of every row holds of the one found.
  pub All-find? {κ} :
      (P : A → Type κ) (p : A → Bool) (xs : List A) (x : A) → find? p xs ≡ some x → All P xs → P x
  All-find? P p [] x h a = cc
  All-find? P p (y ∷ ys) x h a = elim (Bool-cases (p y)) [
    | inl hit ↦ subst P (ground arith) a.0
    | inr miss ↦ All-find? P p ys x (ground arith) a.1
  ]

  -- `orderBy: { … : 'asc' }` over a column.
  pub insert_by : (A → ℕ) → A → List A → List A
  insert_by column x [] = x ∷ []
  insert_by column x (y ∷ ys) =
      let rest = insert_by column x ys in if leb (column x) (column y) then x ∷ y ∷ ys else y ∷ rest

  unfoldable pub sort_by : (A → ℕ) → List A → List A
  unfolding insert_by
  sort_by column [] = []
  sort_by column (x ∷ xs) = insert_by column x (sort_by column xs)

module _ {ℓ} {A : Type ℓ} where
  pub any-append : (p : A → Bool) (xs ys : List A) → any p (xs ++ ys) ≡ (any p xs || any p ys)
  any-append p [] ys = refl
  any-append p (x ∷ xs) ys = ground (arith, any-append p xs ys)

  -- A test that implies two others fails everywhere if one of them fails among what passes the other.
  pub any-filter_fails :
      (p q r : A → Bool) (xs : List A)
      → ((x : A) → r x ≡ true → (p x ≡ true) × (q x ≡ true))
      → any q (filter p xs) ≡ false
      → any r xs ≡ false
  any-filter_fails p q r [] both h = refl
  any-filter_fails p q r (x ∷ xs) both h = elim (Bool-cases (r x)) [
    | inl hit ↦ let (passes, conflicts) = both x hit in absurd (ground arith)
    | inr miss ↦ ground (arith, any-filter_fails p q r xs both)
  ]

  pub any-length-filter : (p : A → Bool) (xs : List A) → any p xs ≡ false → length (filter p xs) ≡ 0
  any-length-filter p [] h = refl
  any-length-filter p (x ∷ xs) h = ground (arith, any-length-filter p xs)

  -- The first row that passes a test is the first to pass a narrower one that it passes.
  pub find?_narrow :
      (p q : A → Bool) (xs : List A) (x : A)
      → find? p xs ≡ some x
      → q x ≡ true
      → ((y : A) → q y ≡ true → p y ≡ true)
      → find? q xs ≡ some x
  find?_narrow p q [] x h passes implied = cc
  find?_narrow p q (y ∷ ys) x h passes implied = elim (Bool-cases (p y)) [
    | inl hit ↦
        let same : y ≡ x = ground arith in
        let passed : q y ≡ true = subst (λ w. q w ≡ true) (sym same) passes in ground arith
    | inr miss ↦
        let later = find?_narrow p q ys x (ground arith) passes implied in
        elim (Bool-cases (q y)) [
          | inl other ↦ let hit = implied y other in absurd (ground arith)
          | inr fails ↦ ground arith
        ]
  ]

  pub All-append {κ} : (P : A → Type κ) (xs ys : List A) → All P xs → All P ys → All P (xs ++ ys)
  All-append P [] ys a b = b
  All-append P (x ∷ xs) ys a b = (a.0, All-append P xs ys a.1 b)

  pub any-find? : (p : A → Bool) (xs : List A) → any p xs ≡ true → (x : A) × (find? p xs ≡ some x)
  any-find? p [] h = cc
  any-find? p (y ∷ ys) h = elim (Bool-cases (p y)) [
    | inl hit ↦ (y, ground arith)
    | inr miss ↦ let (x, found) = any-find? p ys (ground arith) in (x, ground arith)
  ]

  pub any-filter : (p q : A → Bool) (xs : List A) → any p (filter q xs) ≡ any (λ x. q x && p x) xs
  any-filter p q [] = refl
  any-filter p q (x ∷ xs) = ground (arith, any-filter p q xs)

  pub any-insert_by :
      (p : A → Bool) (column : A → ℕ) (x : A) (ys : List A)
      → any p (insert_by column x ys) ≡ (p x || any p ys)
  unfolding insert_by
  any-insert_by p column x [] = refl
  any-insert_by p column x (y ∷ ys) = ground (arith, any-insert_by p column x ys)

  pub any-sort_by :
      (p : A → Bool) (column : A → ℕ) (xs : List A) → any p (sort_by column xs) ≡ any p xs
  unfolding sort_by
  any-sort_by p column [] = refl
  any-sort_by p column (x ∷ xs) =
      ground (arith, any-insert_by p column x (sort_by column xs), any-sort_by p column xs)

  pub contains-map :
      (key : A → ℕ) (a : ℕ) (xs : List A) → contains (map key xs) a ≡ any (λ x. key x == a) xs
  contains-map key a [] = refl
  contains-map key a (x ∷ xs) = ground (arith, contains-map key a xs)

  -- A row that passes, one of the list.
  pub any_witness :
      (p : A → Bool) (xs : List A)
      → any p xs ≡ true
      → (x : A) × (p x ≡ true) × ((q : A → Bool) → q x ≡ true → any q xs ≡ true)
  any_witness p [] h = cc
  any_witness p (y ∷ ys) h = elim (Bool-cases (p y)) [
    | inl hit ↦ (y, hit, λ q passes. ground arith)
    | inr miss ↦
        let (x, passes, one) = any_witness p ys (ground arith) in
        (x, passes, λ q other. let later = one q other in ground arith)
  ]

  pub any-nonempty : (p : A → Bool) (xs : List A) → 0 < length (filter p xs) → any p xs ≡ true
  any-nonempty p xs h = elim (Bool-cases (any p xs)) [
    | inl found ↦ found
    | inr missing ↦ absurd (omega (arith, any-length-filter p xs missing))
  ]

  pub length-map : (f : A → ℕ) (xs : List A) → length (map f xs) ≡ length xs
  length-map f [] = refl
  length-map f (x ∷ xs) = ap suc (length-map f xs)
