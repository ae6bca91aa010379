-- ===== src/Subscriptions/Addons/Tests.antt =====
-- A tenant of the business plan with two packs of users who takes three, and one on trial who may not.
use wash_flow.Subscriptions.Paddle.{build_all_paddle_items, get_addon_price_id}
use wash_flow.Prelude.{◌≡◌, refl, false, none, some, [], ◌∷◌, bad_request, if◌then◌else◌}
use wash_flow.Subscriptions.Plans.{business, trial, users, calculate_effective_limit}
use wash_flow.Subscriptions.Limits.{
  Subscription, active, monthly, Quotas, find_by_tenant_id, get_max,
}
use wash_flow.Subscriptions.Service.{
  answered, finished, raised, http, same_resource, recalculate_effective_limits,
}
use wash_flow.Subscriptions.Paddle.Laws.{unconfigured}
use wash_flow.Subscriptions.Addons.{ManageAddonDto, manage_addon, change_plan}
use wash_flow.Subscriptions.Addons.Laws.{stored}
use wash_flow.Subscriptions.Addons.Rows.{manage_addon-get_max}

abbrev tenant : Subscription
tenant = record {
  id = 5;
  tenant_id = 1;
  plan_tier = business;
  status = active;
  max_users = some 35;
  max_branches = some 5;
  max_work_posts = some 25;
  max_services = some 50;
  is_trial = false;
  trial_ends_at = none;
  billing_interval = some monthly;
  paddle_subscription_id = some "sub_1";
  paddle_customer_id = none;
  paddle_status = none;
  current_period_start = none;
  current_period_end = some 9000;
  cancelled_at = none;
  cancel_effective_at = none;
}

abbrev rows : Quotas
rows = record {
  subscriptions = tenant ∷ [];
  addons =
      record { subscription_id = 5; resource = users; quantity = 2; paddle_price_id = none } ∷ [];
  user_rows = [];
  branch_rows = [];
  work_post_rows = [];
  service_rows = [];
}

abbrev three : ManageAddonDto
three = record { resource = users; quantity = 3 }

abbrev three_packs : Quotas
three_packs = record rows {
  subscriptions = record tenant { max_users = some 40 } ∷ [];
  addons =
      record {
        subscription_id = 5;
        resource = users;
        quantity = 3;
        paddle_price_id = some "pri_addon_users";
      }
      ∷ [];
}

takes_three : manage_addon unconfigured 1 three answered rows ≡ finished three_packs
unfolding manage_addon find_by_tenant_id get_addon_price_id build_all_paddle_items
    recalculate_effective_limits calculate_effective_limit
takes_three = refl

manage_addon-get_max_example :
    (s' : Subscription) × (find_by_tenant_id three_packs 1 ≡ some s')
    × (get_max s' users
        ≡ calculate_effective_limit business users
            (if same_resource users users then 3 else stored 5 users rows))
    × (stored 5 users three_packs ≡ (if same_resource users users then 3 else stored 5 users rows))
unfolding find_by_tenant_id
manage_addon-get_max_example =
    manage_addon-get_max unconfigured three answered rows three_packs tenant users refl takes_three

abbrev on_trial : Quotas
on_trial = record rows { subscriptions = record tenant { plan_tier = trial } ∷ [] }

refuses_trial :
    change_plan unconfigured 1
      (record { plan_tier = business; billing_interval = monthly })
      answered
      on_trial
    ≡ raised (http (bad_request "Cannot change plan on a trial. Use checkout to subscribe first."))
unfolding change_plan find_by_tenant_id
refuses_trial = refl
