-- ===== src/Subscriptions/Webhook/Tests.antt =====
-- The laws of the webhooks, for a tenant that Paddle moves from the business plan to the starter one.
use Prim.Native.String.{String}
use wash_flow.Prelude.{ℕ, ◌≡◌, refl, true, false, none, some, List, [], ◌∷◌, ok, arith, map}
use wash_flow.Subscriptions.Plans.{starter, business, users, calculate_effective_limit}
use wash_flow.Subscriptions.Limits.{
  Subscription, active, monthly, yearly, Quotas, find_by_tenant_id, get_max, is_inactive,
}
use wash_flow.Subscriptions.Paddle.{
  PaddleItem, WebhookItem, build_all_paddle_items, extract_plan_tier,
}
use wash_flow.Subscriptions.Paddle.Laws.{unconfigured, echoed}
use wash_flow.Subscriptions.Service.{addon_quantity}
use wash_flow.Subscriptions.Webhook.RoundTrip.{build_all_paddle_items-paddle_quantity}
use wash_flow.Subscriptions.Webhook.{
  SubscriptionEvent, subscription_activated, WebhookData, handled, addons_in,
  find_by_paddle_subscription_id, extract_billing_interval,
}
use wash_flow.Subscriptions.Webhook.Sync.{paddle_quantity}
use wash_flow.Subscriptions.Webhook.Handlers.{
  changes, handle_subscription_updated, dispatch_handler,
}
use wash_flow.Subscriptions.Webhook.Laws.{
  handle_subscription_updated-get_max, handle_subscription_updated-is_inactive,
}
use wash_flow.Subscriptions.Webhook.Deliveries.{
  PaddleWebhookEvent, Delivery, Delivered, process_event, process_all,
}
use wash_flow.Subscriptions.Webhook.KeyList.{key_list, key_list-IsKeyStore}
use wash_flow.Subscriptions.Webhook.Deliveries.Laws.{process_event-process_all, process_event_retry}

abbrev tenant : Subscription
tenant = record {
  id = 5;
  tenant_id = 1;
  plan_tier = business;
  status = active;
  max_users = some 35;
  max_branches = some 5;
  max_work_posts = some 25;
  max_services = some 50;
  is_trial = false;
  trial_ends_at = none;
  billing_interval = some monthly;
  paddle_subscription_id = some "sub_1";
  paddle_customer_id = none;
  paddle_status = none;
  current_period_start = none;
  current_period_end = some 9000;
  cancelled_at = none;
  cancel_effective_at = none;
}

abbrev rows : Quotas
rows = record {
  subscriptions = tenant ∷ [];
  addons =
      record { subscription_id = 5; resource = users; quantity = 2; paddle_price_id = none } ∷ [];
  user_rows = [];
  branch_rows = [];
  work_post_rows = [];
  service_rows = [];
}

abbrev item : String → ℕ → WebhookItem
item price quantity = record { price_id = some price; plan_tier = none; quantity = some quantity }

abbrev items : List WebhookItem
items = item "pri_starter_yearly" 1 ∷ item "pri_addon_users" 3 ∷ []

abbrev update : WebhookData
update = record {
  id = some "sub_1";
  customer_id = none;
  tenant_id = none;
  custom_plan_tier = none;
  items = some items;
  billing_cycle = some "year";
  paddle_status = some "active";
  scheduled_action = some "cancel";
  period_start = some 9000;
  period_end = some 99000;
  subscription_id = none;
  billing_period_end = none;
}

named : find_by_paddle_subscription_id rows "sub_1" ≡ some tenant
unfolding find_by_paddle_subscription_id
named = refl

own : find_by_tenant_id rows 1 ≡ some tenant
unfolding find_by_tenant_id
own = refl

handle_subscription_updated-get_max_example :
    (db' : Quotas) × (s' : Subscription) × (handle_subscription_updated unconfigured update rows
      ≡ handled db' (changes 1 business starter))
    × (find_by_tenant_id db' 1 ≡ some s')
    × (s'.plan_tier ≡ starter)
    × (get_max s' users
        ≡ calculate_effective_limit starter users
            (paddle_quantity (addons_in unconfigured items) users))
unfolding extract_plan_tier
handle_subscription_updated-get_max_example =
    handle_subscription_updated-get_max unconfigured update rows tenant items "sub_1" users refl
      named own refl

handle_subscription_updated-is_inactive_example :
    (db' : Quotas) × (s' : Subscription) × (handle_subscription_updated unconfigured update rows
      ≡ handled db' (changes 1 business starter))
    × (find_by_tenant_id db' 1 ≡ some s')
    × (is_inactive s' 10000 ≡ true)
unfolding extract_plan_tier
handle_subscription_updated-is_inactive_example =
    handle_subscription_updated-is_inactive unconfigured update rows tenant items "sub_1" 10000 refl
      named own refl refl refl

abbrev sent : List PaddleItem
sent =
    record { price_id = "pri_starter_yearly"; quantity = 1 }
    ∷ record { price_id = "pri_addon_users"; quantity = 2 }
    ∷ []

sends : build_all_paddle_items unconfigured starter (some yearly) rows.addons ≡ ok sent
unfolding build_all_paddle_items
sends = refl

build_all_paddle_items-paddle_quantity_example :
    (extract_plan_tier unconfigured (some (map echoed sent)) none ≡ starter)
    × (paddle_quantity (addons_in unconfigured (map echoed sent)) users
        ≡ addon_quantity rows.addons users 0)
build_all_paddle_items-paddle_quantity_example =
    build_all_paddle_items-paddle_quantity starter (some yearly) rows.addons sent none users sends
      (refl, tt)

abbrev delivery : PaddleWebhookEvent
delivery = record { event_id = "evt_1"; event_type = "subscription.updated"; data' = update }

-- A payload without the tenant's row.
abbrev unknown : PaddleWebhookEvent
unknown = record {
  event_id = "evt_2";
  event_type = "subscription.created";
  data' = record update { tenant_id = some 7 };
}

abbrev at : PaddleWebhookEvent → ℕ → Delivery
at event now = record { event = event; at = now; failure = none }

abbrev first : Delivered key_list
first = process_event unconfigured key_list (at delivery 1000) rows []

handled_first : first.thrown ≡ false
unfolding process_event
handled_first = refl

-- A delivery of another event that fails after it has emptied the tables.
abbrev cut_off : Delivery
cut_off = record { event = unknown; at = 2000; failure = some (record rows { subscriptions = [] }) }

process_event-process_all_example :
    let (db', keys') = process_all unconfigured key_list (cut_off ∷ []) first.db first.keys in
    process_event unconfigured key_list (at delivery 3000) db' keys'
    ≡ record { db = db'; keys = keys'; events = []; thrown = false }
process_event-process_all_example =
    process_event-process_all unconfigured key_list key_list-IsKeyStore delivery 1000 3000 none none
      (cut_off ∷ []) rows [] refl handled_first (omega arith, tt) (omega arith)

abbrev failed : Delivered key_list
failed = process_event unconfigured key_list (at unknown 1000) rows []

failed_first : failed.thrown ≡ true
unfolding process_event find_by_tenant_id
failed_first = refl

-- The tenant's row is there by the next delivery.
abbrev joined : Quotas
joined = record rows { subscriptions = record tenant { id = 6; tenant_id = 7 } ∷ [] }

abbrev joined_after : Quotas
joined_after = (process_event unconfigured key_list (at unknown 2000) joined []).db

abbrev activated : SubscriptionEvent
activated = subscription_activated 7 starter yearly "sub_1"

handled_later :
    dispatch_handler unconfigured unknown.event_type unknown.data' 2000 joined
    ≡ handled joined_after (activated ∷ [])
unfolding dispatch_handler find_by_tenant_id process_event addons_in extract_plan_tier
    extract_billing_interval
handled_later = refl

process_event_retry_example :
    let second = process_event unconfigured key_list (at unknown 2000) joined failed.keys in
    (second.thrown ≡ false) × (second.db ≡ joined_after) × (second.events ≡ activated ∷ [])
process_event_retry_example =
    process_event_retry unconfigured key_list key_list-IsKeyStore unknown 1000 2000 none rows joined
      joined_after [] (activated ∷ []) failed_first handled_later
