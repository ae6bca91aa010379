-- ===== src/Subscriptions/Upsert/Laws.antt =====
-- What limits an administrator can set.
use wash_flow.Prelude.{
  ℕ, ◌≤◌, ◌≡◌, refl, subst, inl, inr, some, [], ◌∷◌, ok, arith, Option-cases, ltb,
}
use wash_flow.Subscriptions.Plans.{ResourceKey, branches, work_posts, users, services}
use wash_flow.Subscriptions.Limits.{
  Subscription, Quotas, find_by_tenant_id, count_resource, get_max,
}
use wash_flow.Subscriptions.Service.{with_limits, update_subscription}
use wash_flow.Subscriptions.Service.Laws.{
  no_violation, find-update_subscription, count_resource-update_subscription, get_max-with_limits,
}
use wash_flow.Subscriptions.Upsert.{
  UpsertSubscriptionDto, dto_limit, dto_limits, usage_violations, new_subscription, upsert_row,
  upsert_subscription,
}

module _ (new_id tenant_id : ℕ) (dto : UpsertSubscriptionDto) (db : Quotas) where
  abbrev limited : Subscription → Subscription
  limited = with_limits (dto_limits dto)

  abbrev inserted : Quotas
  inserted = record db {
    subscriptions = limited (new_subscription new_id tenant_id) ∷ db.subscriptions;
  }

  find-inserted :
      find_by_tenant_id inserted tenant_id ≡ some (limited (new_subscription new_id tenant_id))
  unfolding find_by_tenant_id
  find-inserted = ground arith

  count_resource-inserted :
      (r : ResourceKey) → count_resource inserted tenant_id r ≡ count_resource db tenant_id r
  unfolding count_resource
  count_resource-inserted users = refl
  count_resource-inserted branches = refl
  count_resource-inserted work_posts = refl
  count_resource-inserted services = refl

  -- The tenant has a row with the limits, and nothing that a quota counts has changed.
  abbrev IsLimited : Quotas → Type 0
  IsLimited db' =
      ((s : Subscription) × (find_by_tenant_id db' tenant_id ≡ some (limited s)))
      × ((r : ResourceKey) → count_resource db' tenant_id r ≡ count_resource db tenant_id r)

  upsert_row-IsLimited : IsLimited (upsert_row new_id tenant_id dto db)
  unfolding upsert_row
  upsert_row-IsLimited = elim (Option-cases (find_by_tenant_id db tenant_id)) [
    | inr (s, found) ↦
        let left : update_subscription tenant_id limited db ≡ upsert_row new_id tenant_id dto db =
          ground arith in
        subst IsLimited left (
          (s, find-update_subscription db tenant_id limited s (λ x. refl) found),
          λ r. count_resource-update_subscription tenant_id tenant_id limited db r,
        )
    | inl nobody ↦
        let left : inserted ≡ upsert_row new_id tenant_id dto db = ground arith in
        subst IsLimited left
          ((new_subscription new_id tenant_id, find-inserted), λ r. count_resource-inserted r)
  ]

-- Limits that an administrator sets are taken only if what the tenant has fits every one of them;
-- then they are the maxima of the tenant's subscription, a new one if there was none.
pub upsert_subscription-dto_limit :
    (new_id tenant_id : ℕ) (dto : UpsertSubscriptionDto) (db db' : Quotas) (r : ResourceKey)
    → upsert_subscription new_id tenant_id dto db ≡ ok db'
    → (s : Subscription) × (find_by_tenant_id db' tenant_id ≡ some s)
      × (get_max s r ≡ some (dto_limit dto r))
      × (count_resource db' tenant_id r ≤ dto_limit dto r)
unfolding upsert_subscription
upsert_subscription-dto_limit new_id tenant_id dto db db' r h =
    let none_found : usage_violations db tenant_id dto ≡ [] = ground arith in
    let fits =
      no_violation (λ k. ltb (dto_limit dto k) (count_resource db tenant_id k))
        (unfold usage_violations in none_found) r in
    let left : upsert_row new_id tenant_id dto db ≡ db' = ground arith in
    let ((s, found), counted) =
      subst (IsLimited new_id tenant_id dto db) left
        (upsert_row-IsLimited new_id tenant_id dto db) in
    (
      with_limits (dto_limits dto) s,
      found,
      get_max-with_limits (dto_limits dto) s r,
      ground (arith, counted r, fits),
    )
