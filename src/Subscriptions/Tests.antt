-- ===== src/Subscriptions/Tests.antt =====
-- The laws of the subscriptions, for a tenant on the starter plan with one branch.
use Prim.Native.String.{String}
use wash_flow.Prelude.{
  ◌≤◌, ◌<◌, ◌≡◌, ◌⊎◌, refl, false, none, some, [], ◌∷◌, ok, err, forbidden, bad_request, leb, arith,
}
use wash_flow.Subscriptions.Plans.{
  starter, business, branches, users, work_posts, services, is_downgrade, calculate_effective_limit,
}
use wash_flow.Subscriptions.Limits.{
  Subscription, active, monthly, Quotas, CountedRow, find_by_tenant_id, count_resource, get_max,
  with_resource_limit, create_row, is_inactive,
}
use wash_flow.Subscriptions.Limits.Laws.{
  Admits, with_resource_limit-Admits, InQuota, create_row-InQuota,
}
use wash_flow.Subscriptions.Service.{
  addons_of, effective_limit, update_subscription, with_limits, recalculate_effective_limits,
  exceeds, validate_downgrade, answered, finished, raised, http, as_cancelled, as_reactivated,
  cancel_subscription, reactivate_subscription,
}
use wash_flow.Subscriptions.Service.Laws.{
  on_tier, validate_downgrade-recalculate_effective_limits,
  cancel_subscription-reactivate_subscription,
}
use wash_flow.Subscriptions.Upsert.{
  UpsertSubscriptionDto, dto_limit, dto_limits, upsert_subscription,
}
use wash_flow.Subscriptions.Upsert.Laws.{upsert_subscription-dto_limit}

abbrev subscribed : Subscription
subscribed = record {
  id = 5;
  tenant_id = 1;
  plan_tier = business;
  status = active;
  max_users = some 25;
  max_branches = some 5;
  max_work_posts = some 25;
  max_services = some 50;
  is_trial = false;
  trial_ends_at = none;
  billing_interval = some monthly;
  paddle_subscription_id = some "sub_1";
  paddle_customer_id = none;
  paddle_status = none;
  current_period_start = none;
  current_period_end = some 9000;
  cancelled_at = none;
  cancel_effective_at = none;
}

abbrev branch_row : CountedRow
branch_row = record { id = 2; tenant_id = 1; deleted_at = none }

abbrev tenant_rows : Quotas
tenant_rows = record {
  subscriptions = subscribed ∷ [];
  addons =
      record { subscription_id = 5; resource = users; quantity = 2; paddle_price_id = none } ∷ [];
  user_rows = [];
  branch_rows = branch_row ∷ [];
  work_post_rows = [];
  service_rows = [];
}

not_down : is_downgrade starter business ≡ false
unfolding is_downgrade
not_down = refl

with_resource_limit-Admits_example :
    ((with_resource_limit 1 branches (create_row branches 3 1) 1000 tenant_rows
        ≡ create_row branches 3 1 tenant_rows)
      × Admits tenant_rows 1 branches 1000)
    ⊎ (((m : String) × (with_resource_limit 1 branches (create_row branches 3 1) 1000 tenant_rows
            ≡ err (forbidden m)))
        × (Admits tenant_rows 1 branches 1000 → ⊥))
with_resource_limit-Admits_example =
    with_resource_limit-Admits 1 branches (create_row branches 3 1) 1000 tenant_rows

abbrev second_row : CountedRow
second_row = record { id = 3; tenant_id = 1; deleted_at = none }

abbrev two_branches : Quotas
two_branches = record tenant_rows { branch_rows = second_row ∷ branch_row ∷ [] }

creates_second :
    with_resource_limit 1 branches (create_row branches 3 1) 1000 tenant_rows
    ≡ ok (second_row, two_branches)
unfolding with_resource_limit create_row
creates_second = refl

starts-InQuota : InQuota tenant_rows
unfolding find_by_tenant_id count_resource get_max
starts-InQuota tenant_id users s m found limited = ground arith
starts-InQuota tenant_id branches s m found limited = ground arith
starts-InQuota tenant_id work_posts s m found limited = ground arith
starts-InQuota tenant_id services s m found limited = ground arith

create_row-InQuota_example : InQuota two_branches
create_row-InQuota_example =
    create_row-InQuota 1 branches 3 1000 tenant_rows two_branches second_row creates_second
      starts-InQuota

found_subscribed : find_by_tenant_id tenant_rows 1 ≡ some subscribed
unfolding find_by_tenant_id
found_subscribed = refl

fits_starter : validate_downgrade tenant_rows 1 starter (addons_of tenant_rows subscribed) ≡ ok tt
unfolding validate_downgrade effective_limit calculate_effective_limit count_resource
fits_starter = refl

validate_downgrade-recalculate_effective_limits_example :
    let db1 = update_subscription 1 (on_tier starter) tenant_rows in
    let db2 = recalculate_effective_limits 1 db1 in
    (s2 : Subscription) × (find_by_tenant_id db2 1 ≡ some s2)
    × (exceeds (count_resource db2 1 branches) (get_max s2 branches) ≡ false)
validate_downgrade-recalculate_effective_limits_example =
    validate_downgrade-recalculate_effective_limits 1 starter tenant_rows subscribed branches
      found_subscribed fits_starter

abbrev cancelled_rows : Quotas
cancelled_rows = record tenant_rows { subscriptions = as_cancelled 1000 subscribed subscribed ∷ [] }

cancels_at_1000 : cancel_subscription 1 answered 1000 tenant_rows ≡ finished cancelled_rows
unfolding cancel_subscription find_by_tenant_id
cancels_at_1000 = refl

cancel_subscription-reactivate_subscription_example :
    let db2 = update_subscription 1 as_reactivated cancelled_rows in
    let again = reactivate_subscription 1 answered 5000 cancelled_rows in
    (find_by_tenant_id cancelled_rows 1 ≡ some (as_cancelled 1000 subscribed subscribed))
    × (is_inactive (as_cancelled 1000 subscribed subscribed) 5000 ≡ leb 9000 5000)
    × (5000 < 9000
        → (again ≡ finished db2) × (find_by_tenant_id db2 1 ≡ some (as_reactivated subscribed)))
    × (9000 ≤ 5000
        → again
          ≡ raised (
              http
                (bad_request "Cancellation period has ended. Please create a new subscription.")))
cancel_subscription-reactivate_subscription_example =
    cancel_subscription-reactivate_subscription 1 1000 5000 answered tenant_rows cancelled_rows
      subscribed found_subscribed cancels_at_1000

abbrev two_of_each : UpsertSubscriptionDto
two_of_each = record {
  dto_max_users = 2;
  dto_max_branches = 2;
  dto_max_work_posts = 2;
  dto_max_services = 2;
}

abbrev limited_rows : Quotas
limited_rows = record tenant_rows {
  subscriptions = with_limits (dto_limits two_of_each) subscribed ∷ [];
}

sets_limits : upsert_subscription 6 1 two_of_each tenant_rows ≡ ok limited_rows
unfolding upsert_subscription count_resource find_by_tenant_id
sets_limits = refl

upsert_subscription-dto_limit_example :
    (s : Subscription) × (find_by_tenant_id limited_rows 1 ≡ some s)
    × (get_max s branches ≡ some (dto_limit two_of_each branches))
    × (count_resource limited_rows 1 branches ≤ dto_limit two_of_each branches)
upsert_subscription-dto_limit_example =
    upsert_subscription-dto_limit 6 1 two_of_each tenant_rows limited_rows branches sets_limits
