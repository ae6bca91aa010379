-- ===== src/Subscriptions/Service/Laws.antt =====
-- What the limits, a downgrade and a cancellation come to.
use wash_flow.Prelude.{
  ℕ, ◌≤◌, ◌<◌, ◌≡◌, ◌↔◌, refl, sym, subst, ◌∙◌, Bool, true, false, Option, some, List, [], ◌∷◌, ok,
  find?-update_where, filter, leb, get_or, bad_request, arith, ◌==◌,
}
use wash_flow.Subscriptions.Plans.{PlanTier, ResourceKey, branches, work_posts, users, services}
use wash_flow.Subscriptions.Limits.{
  Subscription, SubscriptionAddon, Quotas, find_by_tenant_id, count_resource, get_max, is_inactive,
}
use wash_flow.Subscriptions.Service.{
  addons_of, effective_limit, update_subscription, with_limits, recalculate_effective_limits,
  exceeds, violations, validate_downgrade, PaddleOutcome, answered, finished, raised, http,
  as_cancelled, as_reactivated, cancel_subscription, reactivate_subscription,
  has_paddle_subscription,
}

resource_cases :
    (P : ResourceKey → Bool)
    → P users ≡ false
    → P branches ≡ false
    → P work_posts ≡ false
    → P services ≡ false
    → (r : ResourceKey) → P r ≡ false
resource_cases P u b w s users = u
resource_cases P u b w s branches = b
resource_cases P u b w s work_posts = w
resource_cases P u b w s services = s

pub no_violation :
    (P : ResourceKey → Bool)
    → filter P (users ∷ branches ∷ work_posts ∷ services ∷ []) ≡ []
    → (r : ResourceKey) → P r ≡ false
no_violation P h = resource_cases P (ground arith) (ground arith) (ground arith) (ground arith)

no_violation_conv :
    (P : ResourceKey → Bool)
    → ((r : ResourceKey) → P r ≡ false)
    → filter P (users ∷ branches ∷ work_posts ∷ services ∷ []) ≡ []
no_violation_conv P h = ground (arith, h users, h branches, h work_posts, h services)

-- A downgrade is let through exactly when, for every resource, what the tenant has fits the new
-- plan's limit with the add-ons kept.
pub validate_downgrade_iff :
    (db : Quotas) (tenant_id : ℕ) (new_tier : PlanTier) (addons : List SubscriptionAddon)
    → (validate_downgrade db tenant_id new_tier addons ≡ ok tt) ↔ (
        (r : ResourceKey)
        → exceeds (count_resource db tenant_id r) (effective_limit new_tier addons r) ≡ false)
unfolding validate_downgrade
validate_downgrade_iff db tenant_id new_tier addons =
    let P : ResourceKey → Bool =
      λ r. exceeds (count_resource db tenant_id r) (effective_limit new_tier addons r) in
    (
      λ h r.
          let none_found : violations db tenant_id new_tier addons ≡ [] = ground arith in
          no_violation P (unfold violations in none_found) r,
      λ fits.
          let none_found : violations db tenant_id new_tier addons ≡ [] =
            unfold violations in no_violation_conv P fits in
          ground arith,
    )

-- The row of a tenant after an update.
pub find-update_subscription :
    (db : Quotas) (tenant_id : ℕ) (change : Subscription → Subscription) (s : Subscription)
    → ((x : Subscription) → (change x).tenant_id ≡ x.tenant_id)
    → find_by_tenant_id db tenant_id ≡ some s
    → find_by_tenant_id (update_subscription tenant_id change db) tenant_id ≡ some (change s)
unfolding find_by_tenant_id update_subscription
find-update_subscription db tenant_id change s same found =
    find?-update_where (λ x. x.tenant_id == tenant_id) change db.subscriptions s
      (λ y e. ground (arith, same y)) found

pub get_max-with_limits :
    (limits : ResourceKey → Option ℕ) (s : Subscription) (r : ResourceKey)
    → get_max (with_limits limits s) r ≡ limits r
unfolding get_max
get_max-with_limits limits s branches = refl
get_max-with_limits limits s work_posts = refl
get_max-with_limits limits s users = refl
get_max-with_limits limits s services = refl

recalculates :
    (tenant_id : ℕ) (db : Quotas) (s : Subscription)
    → find_by_tenant_id db tenant_id ≡ some s
    → recalculate_effective_limits tenant_id db
      ≡ update_subscription tenant_id
          (with_limits (effective_limit s.plan_tier (addons_of db s)))
          db
unfolding recalculate_effective_limits
recalculates tenant_id db s found = ground arith

-- After the limits are computed, each maximum is the plan's limit with the add-ons, and nothing
-- else of the subscription has changed.
pub recalculate_effective_limits-get_max :
    (tenant_id : ℕ) (db : Quotas) (s : Subscription) (r : ResourceKey)
    → find_by_tenant_id db tenant_id ≡ some s
    → let db' = recalculate_effective_limits tenant_id db in
      let limits = effective_limit s.plan_tier (addons_of db s) in
      (find_by_tenant_id db' tenant_id ≡ some (with_limits limits s))
      × (get_max (with_limits limits s) r ≡ limits r)
recalculate_effective_limits-get_max tenant_id db s r found =
    let limits = effective_limit s.plan_tier (addons_of db s) in
    (
      subst (λ d. find_by_tenant_id d tenant_id ≡ some (with_limits limits s))
          (sym (recalculates tenant_id db s found))
          (find-update_subscription db tenant_id (with_limits limits) s (λ x. refl) found),
      get_max-with_limits limits s r,
    )

abbrev pub on_tier : PlanTier → Subscription → Subscription
on_tier tier s = record s { plan_tier = tier }

-- The subscription's columns are not what a quota counts.
pub count_resource-update_subscription :
    (tenant_id t : ℕ) (change : Subscription → Subscription) (db : Quotas) (r : ResourceKey)
    → count_resource (update_subscription tenant_id change db) t r ≡ count_resource db t r
unfolding count_resource update_subscription
count_resource-update_subscription tenant_id t change db users = refl
count_resource-update_subscription tenant_id t change db branches = refl
count_resource-update_subscription tenant_id t change db work_posts = refl
count_resource-update_subscription tenant_id t change db services = refl

count_resource-recalculate_effective_limits :
    (tenant_id : ℕ) (db : Quotas) (s : Subscription) (r : ResourceKey)
    → find_by_tenant_id db tenant_id ≡ some s
    → count_resource (recalculate_effective_limits tenant_id db) tenant_id r
      ≡ count_resource db tenant_id r
count_resource-recalculate_effective_limits tenant_id db s r found =
    subst (λ d. count_resource d tenant_id r ≡ count_resource db tenant_id r)
      (sym (recalculates tenant_id db s found))
      (count_resource-update_subscription tenant_id tenant_id
        (with_limits (effective_limit s.plan_tier (addons_of db s))) db r)

-- A downgrade that is let through leaves the tenant within its limits: once the new tier stands in
-- the row and the limits are computed again, what the tenant has fits each of them.
pub validate_downgrade-recalculate_effective_limits :
    (tenant_id : ℕ) (new_tier : PlanTier) (db : Quotas) (s : Subscription) (r : ResourceKey)
    → find_by_tenant_id db tenant_id ≡ some s
    → validate_downgrade db tenant_id new_tier (addons_of db s) ≡ ok tt
    → let db1 = update_subscription tenant_id (on_tier new_tier) db in
      let db2 = recalculate_effective_limits tenant_id db1 in
      (s2 : Subscription) × (find_by_tenant_id db2 tenant_id ≡ some s2)
      × (exceeds (count_resource db2 tenant_id r) (get_max s2 r) ≡ false)
unfolding update_subscription
validate_downgrade-recalculate_effective_limits tenant_id new_tier db s r found passed =
    let db1 = update_subscription tenant_id (on_tier new_tier) db in
    let found1 = find-update_subscription db tenant_id (on_tier new_tier) s (λ x. refl) found in
    let (fits, _) = validate_downgrade_iff db tenant_id new_tier (addons_of db s) in
    let (found2, limited) =
      recalculate_effective_limits-get_max tenant_id db1 (on_tier new_tier s) r found1 in
    let counted =
      count_resource-recalculate_effective_limits tenant_id db1 (on_tier new_tier s) r found1
      ∙ count_resource-update_subscription tenant_id tenant_id (on_tier new_tier) db r in
    (_, found2, rw (counted, limited) (fits passed r))

cancels :
    (tenant_id now : ℕ) (outcome : PaddleOutcome) (db db' : Quotas) (s : Subscription)
    → find_by_tenant_id db tenant_id ≡ some s
    → cancel_subscription tenant_id outcome now db ≡ finished db'
    → (db' ≡ update_subscription tenant_id (as_cancelled now s) db)
      × (has_paddle_subscription s ≡ true)
unfolding cancel_subscription
cancels tenant_id now outcome db db' s found h = (ground arith, ground arith)

-- A cancellation that goes through, also one that Paddle has pending already, leaves the
-- subscription in force until the end of its billing period, if it has one, and not after. Until
-- then it can be reactivated, which leaves it as it was but active; from then on it cannot.
pub cancel_subscription-reactivate_subscription :
    (tenant_id now later : ℕ) (outcome : PaddleOutcome) (db db' : Quotas) (s : Subscription)
    → find_by_tenant_id db tenant_id ≡ some s
    → cancel_subscription tenant_id outcome now db ≡ finished db'
    → let ends = get_or s.current_period_end now in
      let db2 = update_subscription tenant_id as_reactivated db' in
      let again = reactivate_subscription tenant_id answered later db' in
      (find_by_tenant_id db' tenant_id ≡ some (as_cancelled now s s))
      × (is_inactive (as_cancelled now s s) later ≡ leb ends later)
      × (later < ends
          → (again ≡ finished db2) × (find_by_tenant_id db2 tenant_id ≡ some (as_reactivated s)))
      × (ends ≤ later
          → again
            ≡ raised (
                http
                  (bad_request "Cancellation period has ended. Please create a new subscription.")))
unfolding reactivate_subscription is_inactive
cancel_subscription-reactivate_subscription tenant_id now later outcome db db' s found h =
    let (left, linked) = cancels tenant_id now outcome db db' s found h in
    let cancelled_row : find_by_tenant_id db' tenant_id ≡ some (as_cancelled now s s) =
      subst (λ d. find_by_tenant_id d tenant_id ≡ some (as_cancelled now s s)) (sym left)
        (find-update_subscription db tenant_id (as_cancelled now s) s (λ x. refl) found) in
    (
      cancelled_row,
      refl,
      λ early. (
        ground arith,
        find-update_subscription db' tenant_id as_reactivated (as_cancelled now s s) (λ x. refl)
            cancelled_row,
      ),
      λ late. ground arith,
    )
