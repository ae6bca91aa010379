-- ===== src/Guards/Tests.antt =====
-- A super administrator takes over a tenant, and a client asks for one and stays in its own.
use Prim.Native.String.{String}
use wash_flow.Prelude.{
  ◌↔◌, ◌≡◌, ◌⊎◌, refl, true, false, none, some, [], ◌∷◌, ok, err, forbidden, unavailable,
}
use wash_flow.Guards.{
  RequestUser, Passed, super_admin_tenant_access, tenant_guard, permissions_guard,
  super_admin_guard, payments_enabled_guard,
}
use wash_flow.Guards.Laws.{IsKept, IsTakenOver, tenant_guard-IsTakenOver}

abbrev header : String
header = "0A1b2c3d-0000-4000-8000-0123456789ab"

abbrev admin : RequestUser
admin = record { sub = 5; tenant_id = some 1; is_super_admin = true; permissions = none }

abbrev taken_over : Passed
taken_over = record {
  user = some (record admin { tenant_id = some 2 });
  events = super_admin_tenant_access 2 5 2 ∷ [];
}

takes_over : tenant_guard (λ s. 2) (1 ∷ 2 ∷ []) false (some header) (some admin) ≡ ok taken_over
unfolding tenant_guard
takes_over = refl

tenant_guard-IsTakenOver_example :
    (tenant_guard (λ s. 2) (1 ∷ 2 ∷ []) false (some header) (some admin) ≡ ok taken_over) ↔ (
      (u : RequestUser) × (some admin ≡ some u)
      × (IsKept (some header) u taken_over
          ⊎ IsTakenOver (λ s. 2) (1 ∷ 2 ∷ []) (some header) u taken_over))
tenant_guard-IsTakenOver_example =
    tenant_guard-IsTakenOver (λ s. 2) (1 ∷ 2 ∷ []) (some header) (some admin) taken_over

abbrev clerk : RequestUser
clerk = record admin { is_super_admin = false; permissions = some ("orders.read" ∷ []) }

refuses_writer :
    permissions_guard (some ("orders.read" ∷ "orders.write" ∷ [])) (some clerk)
    ≡ err (forbidden "Insufficient permissions")
unfolding permissions_guard
refuses_writer = refl

refuses_clerk : super_admin_guard (some clerk) ≡ err (forbidden "Super-admin access required")
unfolding super_admin_guard
refuses_clerk = refl

refuses_payment : payments_enabled_guard false ≡ err (unavailable "Payments are currently disabled")
unfolding payments_enabled_guard
refuses_payment = refl
