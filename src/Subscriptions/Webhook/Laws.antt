-- ===== src/Subscriptions/Webhook/Laws.antt =====
-- What an update by Paddle comes to for the tenant.
use Prim.Native.String.{String}
use wash_flow.Prelude.{
  ℕ, ◌≡◌, refl, ap, ◌∙◌, true, some, none, List, [], ◌∷◌, arith, map, filter, not, ltb,
}
use wash_flow.Subscriptions.Plans.{PlanTier, ResourceKey, calculate_effective_limit}
use wash_flow.Subscriptions.Limits.{Subscription, Quotas, find_by_tenant_id, get_max, is_inactive}
use wash_flow.Subscriptions.Service.{
  addons_of, effective_limit, with_limits, update_subscription, recalculate_effective_limits,
}
use wash_flow.Subscriptions.Service.Laws.{
  find-update_subscription, recalculate_effective_limits-get_max,
}
use wash_flow.Subscriptions.Paddle.{PaddleConfig, WebhookItem}
use wash_flow.Subscriptions.Addons.{upsert_addon, delete_addon}
use wash_flow.Subscriptions.Addons.Rows.{upsert_addon_rows, find-rows, effective_limit-stored}
use wash_flow.Subscriptions.Webhook.{
  WebhookData, handled, non_empty, find_by_paddle_subscription_id, AddonUpsert, addons_in,
  upsert_all, delete_all, sync_listed, sync_addons_from_paddle_items, stale_resources,
}
use wash_flow.Subscriptions.Webhook.Sync.{paddle_quantity, stored-sync_listed}
use wash_flow.Subscriptions.Webhook.Handlers.{
  as_updated, is_cancel, updated_status, tier_of, changes, apply_update,
  handle_subscription_updated,
}

upsert_all_rows :
    (id : ℕ) (us : List AddonUpsert) (db : Quotas)
    → (upsert_all id us db).subscriptions ≡ db.subscriptions
upsert_all_rows id [] db = refl
upsert_all_rows id (u ∷ us) db =
    upsert_all_rows id us (upsert_addon id u.resource u.quantity (some u.price_id) db)
    ∙ upsert_addon_rows id u.resource u.quantity (some u.price_id) db

delete_all_rows :
    (id : ℕ) (rs : List ResourceKey) (db : Quotas)
    → (delete_all id rs db).subscriptions ≡ db.subscriptions
unfolding delete_addon
delete_all_rows id [] db = refl
delete_all_rows id (r ∷ rs) db = delete_all_rows id rs (delete_addon id r db)

sync_listed_rows :
    (id : ℕ) (listed : List AddonUpsert) (db : Quotas)
    → (sync_listed id listed db).subscriptions ≡ db.subscriptions
sync_listed_rows id listed db =
    delete_all_rows id (stale_resources id listed db) (
      delete_all id (map (λ u. u.resource) (filter (λ u. not (ltb 0 u.quantity)) listed))
        (upsert_all id (filter (λ u. ltb 0 u.quantity) listed) db))
    ∙ delete_all_rows id (map (λ u. u.resource) (filter (λ u. not (ltb 0 u.quantity)) listed))
        (upsert_all id (filter (λ u. ltb 0 u.quantity) listed) db)
    ∙ upsert_all_rows id (filter (λ u. ltb 0 u.quantity) listed) db

module _ (config : PaddleConfig) (data' : WebhookData) (db : Quotas) (s : Subscription)
    (items : List WebhookItem) where
  abbrev listed : List AddonUpsert
  listed = addons_in config items

  abbrev new_tier : PlanTier
  new_tier = tier_of config data'

  abbrev row : Subscription
  row = as_updated data' new_tier s

  abbrev synced : Quotas
  synced = sync_listed s.id listed (update_subscription s.tenant_id (as_updated data' new_tier) db)

  abbrev pub after_update : Subscription
  after_update = with_limits (effective_limit new_tier (addons_of synced row)) row

  apply_update-synced :
      data'.items ≡ some items
      → apply_update config data' s db ≡ recalculate_effective_limits s.tenant_id synced
  unfolding apply_update sync_addons_from_paddle_items
  apply_update-synced given =
      ap
        (λ it. recalculate_effective_limits s.tenant_id (
          sync_addons_from_paddle_items config s.id it
            (update_subscription s.tenant_id (as_updated data' new_tier) db)))
        given

  synced-row :
      find_by_tenant_id db s.tenant_id ≡ some s → find_by_tenant_id synced s.tenant_id ≡ some row
  synced-row found =
      find-rows (update_subscription s.tenant_id (as_updated data' new_tier) db) synced s.tenant_id
        (sync_listed_rows s.id listed
          (update_subscription s.tenant_id (as_updated data' new_tier) db))
      ∙ find-update_subscription db s.tenant_id (as_updated data' new_tier) s (λ x. refl) found

  apply_update_row :
      data'.items ≡ some items
      → find_by_tenant_id db s.tenant_id ≡ some s
      → find_by_tenant_id (apply_update config data' s db) s.tenant_id ≡ some after_update
  apply_update_row given found =
      let (kept, _) =
        recalculate_effective_limits-get_max s.tenant_id synced row ResourceKey.users
          (synced-row found) in
      ap (λ d. find_by_tenant_id d s.tenant_id) (apply_update-synced given) ∙ kept

  after_update-get_max :
      (r : ResourceKey)
      → find_by_tenant_id db s.tenant_id ≡ some s
      → get_max after_update r ≡ calculate_effective_limit new_tier r (paddle_quantity listed r)
  after_update-get_max r found =
      let (_, limits) =
        recalculate_effective_limits-get_max s.tenant_id synced row r (synced-row found) in
      limits
      ∙ effective_limit-stored new_tier synced row r
      ∙ ap (λ q. calculate_effective_limit new_tier r q)
          (stored-sync_listed s.id r listed
            (update_subscription s.tenant_id (as_updated data' new_tier) db))

  handle_subscription_updated-apply_update :
      (paddle_id : String)
      → non_empty data'.id ≡ some paddle_id
      → find_by_paddle_subscription_id db paddle_id ≡ some s
      → handle_subscription_updated config data' db
        ≡ handled (apply_update config data' s db) (changes s.tenant_id s.plan_tier new_tier)
  unfolding handle_subscription_updated
  handle_subscription_updated-apply_update paddle_id named found = ground arith

  -- An update by Paddle leaves the tenant with the limits that the payload states: the tier of its
  -- items, and for each resource the plan's limit with the add-on quantity that the items give it, no
  -- matter which add-ons were stored before. It is announced exactly if the tier changes. The tenant
  -- has one subscription, and the payload names it and has items.
  pub handle_subscription_updated-get_max :
      (paddle_id : String) (r : ResourceKey)
      → non_empty data'.id ≡ some paddle_id
      → find_by_paddle_subscription_id db paddle_id ≡ some s
      → find_by_tenant_id db s.tenant_id ≡ some s
      → data'.items ≡ some items
      → (db' : Quotas) × (s' : Subscription) × (handle_subscription_updated config data' db
          ≡ handled db' (changes s.tenant_id s.plan_tier new_tier))
        × (find_by_tenant_id db' s.tenant_id ≡ some s')
        × (s'.plan_tier ≡ new_tier)
        × (get_max s' r ≡ calculate_effective_limit new_tier r (paddle_quantity listed r))
  handle_subscription_updated-get_max paddle_id r named found own given = (
    apply_update config data' s db,
    after_update,
    handle_subscription_updated-apply_update paddle_id named found,
    apply_update_row given own,
    refl,
    after_update-get_max r own,
  )

  cancels_at_once :
      (now : ℕ)
      → is_cancel data'.scheduled_action ≡ true
      → s.cancel_effective_at ≡ none
      → is_inactive after_update now ≡ true
  unfolding is_inactive updated_status
  cancels_at_once now scheduled unset = ground arith

  -- A cancellation that Paddle has only scheduled makes the subscription inactive at once, at any
  -- instant, if no instant of its end is stored: the handler stores none, although the payload may
  -- say when the paid period ends.
  pub handle_subscription_updated-is_inactive :
      (paddle_id : String) (now : ℕ)
      → non_empty data'.id ≡ some paddle_id
      → find_by_paddle_subscription_id db paddle_id ≡ some s
      → find_by_tenant_id db s.tenant_id ≡ some s
      → data'.items ≡ some items
      → is_cancel data'.scheduled_action ≡ true
      → s.cancel_effective_at ≡ none
      → (db' : Quotas) × (s' : Subscription) × (handle_subscription_updated config data' db
          ≡ handled db' (changes s.tenant_id s.plan_tier new_tier))
        × (find_by_tenant_id db' s.tenant_id ≡ some s')
        × (is_inactive s' now ≡ true)
  handle_subscription_updated-is_inactive paddle_id now named found own given scheduled unset = (
    apply_update config data' s db,
    after_update,
    handle_subscription_updated-apply_update paddle_id named found,
    apply_update_row given own,
    cancels_at_once now scheduled unset,
  )
