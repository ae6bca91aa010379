-- ===== src/Guards/Laws.antt =====
-- For which tenant a request that passes the guards acts.
use Prim.Native.String.{String}
use text.Mathlib.Text.{◌==◌ as str_eq}
use text.Mathlib.TextEquality.{eq_iff}
use wash_flow.Prelude.{
  ap, sym, ◌∙◌, ◌↔◌, ◌≢◌, ℕ, ◌≡◌, ◌⊎◌, refl, true, false, Option, none, some, List, [], ◌∷◌, arith,
  ok, contains, Bool-cases, Option-cases, inl, inr,
}
use wash_flow.Guards.{
  RequestUser, Passed, super_admin_tenant_access, super_admin_tenant, tenant_guard, uuid_regex,
}

-- The request keeps the tenant of its token: that of a user who is no super administrator and has
-- one, or whatever a super administrator has who names none.
abbrev pub IsKept : Option String → RequestUser → Passed → Type 0
IsKept header u passed =
    (((u.is_super_admin ≡ false) × ((t : ℕ) × (u.tenant_id ≡ some t)))
      ⊎ ((u.is_super_admin ≡ true) × ((header ≡ none) ⊎ (header ≡ some ""))))
    × (passed ≡ record { user = some u; events = [] })

-- A super administrator takes the request over to the tenant that the header names, which exists, and
-- that is reported.
abbrev pub IsTakenOver : (String → ℕ) → List ℕ → Option String → RequestUser → Passed → Type 0
IsTakenOver id_of tenants header u passed =
    (u.is_super_admin ≡ true)
    × (asked : String) × (header ≡ some asked)
    × (uuid_regex asked ≡ true)
    × (contains tenants (id_of asked) ≡ true)
    × (passed ≡ record {
      user = some (record u { tenant_id = some (id_of asked) });
      events = super_admin_tenant_access (id_of asked) u.sub (id_of asked) ∷ [];
    })

uuid_not_empty : (s : String) → uuid_regex s ≡ true → str_eq s "" ≡ false
unfolding uuid_regex
uuid_not_empty s fine =
    let wrong : true ≢ false = λ e. cc in
    elim (Bool-cases (str_eq s "")) [
      | inr full ↦ full
      | inl empty ↦ absurd (wrong (sym fine ∙ ap uuid_regex ((eq_iff s "").0 empty)))
    ]

super_admin_tenant_cases :
    (id_of : String → ℕ) (tenants : List ℕ) (header : Option String) (u : RequestUser)
    (passed : Passed)
    → u.is_super_admin ≡ true
    → super_admin_tenant id_of tenants header u ≡ ok passed
    → IsKept header u passed ⊎ IsTakenOver id_of tenants header u passed
unfolding super_admin_tenant
super_admin_tenant_cases id_of tenants none u passed admin h =
    inl (inr (admin, inl refl), ground arith)
super_admin_tenant_cases id_of tenants (some asked) u passed admin h =
    elim (Bool-cases (str_eq asked "")) [
      | inl empty ↦ inl (inr (admin, inr (ap some ((eq_iff asked "").0 empty))), ground arith)
      | inr given ↦ elim (Bool-cases (uuid_regex asked)) [
        | inr malformed ↦ absurd (ground arith)
        | inl fine ↦ elim (Bool-cases (contains tenants (id_of asked))) [
          | inr unknown ↦ absurd (ground arith)
          | inl known ↦ inr (admin, asked, refl, fine, known, ground arith)
        ]
      ]
    ]

taken_over_passes :
    (id_of : String → ℕ) (tenants : List ℕ) (header : Option String) (u : RequestUser)
    (passed : Passed)
    → IsTakenOver id_of tenants header u passed
    → super_admin_tenant id_of tenants header u ≡ ok passed
unfolding super_admin_tenant
taken_over_passes id_of tenants header u passed (admin, asked, named, fine, known, is) =
    let full = uuid_not_empty asked fine in ground arith

kept_passes :
    (id_of : String → ℕ) (tenants : List ℕ) (header : Option String) (u : RequestUser)
    (passed : Passed)
    → u.is_super_admin ≡ true
    → (header ≡ none) ⊎ (header ≡ some "")
    → super_admin_tenant id_of tenants header u ≡ ok (record { user = some u; events = [] })
unfolding super_admin_tenant
kept_passes id_of tenants header u passed admin (inl missing) = ground arith
kept_passes id_of tenants header u passed admin (inr empty) =
    let same = (eq_iff "" "").1 refl in ground arith

-- A request to an endpoint that is not public passes the tenant guard exactly in two cases. Either its
-- user has a tenant, or is a super administrator who names none in the header: then it passes as that
-- user with no event. Or a super administrator names in the header, as a UUID, a tenant that exists:
-- then it acts for that tenant, and the access is reported.
pub tenant_guard-IsTakenOver :
    (id_of : String → ℕ) (tenants : List ℕ) (header : Option String) (user : Option RequestUser)
    (passed : Passed)
    → (tenant_guard id_of tenants false header user ≡ ok passed) ↔ (
        (u : RequestUser) × (user ≡ some u)
        × (IsKept header u passed ⊎ IsTakenOver id_of tenants header u passed))
unfolding tenant_guard
tenant_guard-IsTakenOver id_of tenants header user passed = (only user, back)
  where
    only :
        (user : Option RequestUser)
        → tenant_guard id_of tenants false header user ≡ ok passed
        → (u : RequestUser) × (user ≡ some u)
          × (IsKept header u passed ⊎ IsTakenOver id_of tenants header u passed)
    only none h = absurd (ground arith)
    only (some u) h = elim (Bool-cases u.is_super_admin) [
      | inl admin ↦
          (u, refl, super_admin_tenant_cases id_of tenants header u passed admin (ground arith))
      | inr member ↦ elim (Option-cases u.tenant_id) [
        | inl nowhere ↦ absurd (ground arith)
        | inr (t, somewhere) ↦ (u, refl, inl (inl (member, (t, somewhere)), ground arith))
      ]
    ]

    back :
        (u : RequestUser) × (user ≡ some u)
          × (IsKept header u passed ⊎ IsTakenOver id_of tenants header u passed)
        → tenant_guard id_of tenants false header user ≡ ok passed
    back (u, there, inl (inl (member, (t, somewhere)), is)) = ground arith
    back (u, there, inl (inr (admin, nothing), is)) =
        let passes_on = kept_passes id_of tenants header u passed admin nothing in ground arith
    back (u, there, inr over) =
        let passes_on = taken_over_passes id_of tenants header u passed over in
        let admin = over.0 in ground arith
