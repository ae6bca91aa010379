-- ===== src/Subscriptions/Addons/Rows.antt =====
-- What writes of add-ons leave as it is, and what a managed add-on comes to.
use Prim.Native.String.{String}
use wash_flow.Prelude.{
  ℕ, ◌≡◌, refl, sym, ap, subst, ◌∙◌, Option, some, arith, any, find?, if◌then◌else◌, Bool-cases,
  Option-cases, Result-cases, inl, inr, ◌==◌,
}
use wash_flow.Subscriptions.Plans.{PlanTier, ResourceKey, calculate_effective_limit}
use wash_flow.Subscriptions.Limits.{Subscription, Quotas, find_by_tenant_id, get_max}
use wash_flow.Subscriptions.Service.{
  addons_of, effective_limit, with_limits, same_resource, recalculate_effective_limits,
  update_subscription, PaddleOutcome, finished,
}
use wash_flow.Subscriptions.Service.Laws.{recalculate_effective_limits-get_max}
use wash_flow.Subscriptions.Paddle.{PaddleConfig, get_addon_price_id}
use wash_flow.Subscriptions.Addons.{
  is_addon, upsert_addon, delete_addon, ManageAddonDto, write_addon, asked_paddle, manage_addon,
  is_trial_tier,
}
use wash_flow.Subscriptions.Addons.Laws.{stored, stored-upsert_addon, stored-delete_addon}

pub upsert_addon_rows :
    (id : ℕ) (r : ResourceKey) (q : ℕ) (price : Option String) (db : Quotas)
    → (upsert_addon id r q price db).subscriptions ≡ db.subscriptions
unfolding upsert_addon
upsert_addon_rows id r q price db = elim (Bool-cases (any (is_addon id r) db.addons)) [
  | inl there ↦ ground arith
  | inr missing ↦ ground arith
]

pub find-rows :
    (db db' : Quotas) (tenant_id : ℕ)
    → db'.subscriptions ≡ db.subscriptions
    → find_by_tenant_id db' tenant_id ≡ find_by_tenant_id db tenant_id
unfolding find_by_tenant_id
find-rows db db' tenant_id same = ap (λ rows. find? (λ s. s.tenant_id == tenant_id) rows) same

pub effective_limit-stored :
    (tier : PlanTier) (db : Quotas) (s : Subscription) (r : ResourceKey)
    → effective_limit tier (addons_of db s) r ≡ calculate_effective_limit tier r (stored s.id r db)
unfolding effective_limit
effective_limit-stored tier db s r = refl

module _ (db : Quotas) (s : Subscription) (dto : ManageAddonDto) (price : String) where
  write_addon_rows : (write_addon s dto price db).subscriptions ≡ db.subscriptions
  unfolding delete_addon
  write_addon_rows = elim (Bool-cases (dto.quantity == 0)) [
    | inl none_left ↦ ground arith
    | inr some_left ↦
        let kept = upsert_addon_rows s.id dto.resource dto.quantity (some price) db in ground arith
  ]

  stored-write_addon :
      (r : ResourceKey)
      → stored s.id r (write_addon s dto price db)
        ≡ (if same_resource dto.resource r then dto.quantity else stored s.id r db)
  stored-write_addon r =
      let deleted = stored-delete_addon s.id dto.resource r db in
      let upserted = stored-upsert_addon s.id dto.resource r dto.quantity (some price) db in
      elim (Bool-cases (dto.quantity == 0)) [
        | inr some_left ↦ ground arith
        | inl none_left ↦ elim (Bool-cases (same_resource dto.resource r)) [
          | inl same ↦ ground arith
          | inr apart ↦ ground arith
        ]
      ]

  abbrev after_write : Subscription
  after_write =
      with_limits (effective_limit s.plan_tier (addons_of (write_addon s dto price db) s)) s

  written :
      (r : ResourceKey)
      → find_by_tenant_id db s.tenant_id ≡ some s
      → (find_by_tenant_id
            (recalculate_effective_limits s.tenant_id (write_addon s dto price db))
            s.tenant_id
          ≡ some after_write)
        × (get_max after_write r
            ≡ calculate_effective_limit s.plan_tier r
                (if same_resource dto.resource r then dto.quantity else stored s.id r db))
  written r found =
      let there = find-rows db (write_addon s dto price db) s.tenant_id write_addon_rows ∙ found in
      let (kept, limits) =
        recalculate_effective_limits-get_max s.tenant_id (write_addon s dto price db) s r there in
      (
        kept,
        limits
            ∙ effective_limit-stored s.plan_tier (write_addon s dto price db) s r
            ∙ ap (λ q. calculate_effective_limit s.plan_tier r q) (stored-write_addon r),
      )

stored-recalculate :
    (db : Quotas) (tenant_id id : ℕ) (r : ResourceKey)
    → stored id r (recalculate_effective_limits tenant_id db) ≡ stored id r db
unfolding recalculate_effective_limits update_subscription
stored-recalculate db tenant_id id r = elim (Option-cases (find_by_tenant_id db tenant_id)) [
  | inl missing ↦ ground arith
  | inr (s, found) ↦ ground arith
]

-- An add-on that is changed without an error has, for its resource, the quantity asked for, and the
-- other resources of the subscription keep theirs; each maximum of the subscription is then the plan's limit with these.
pub manage_addon-get_max :
    (config : PaddleConfig) (dto : ManageAddonDto) (outcome : PaddleOutcome) (db db' : Quotas)
    (s : Subscription) (r : ResourceKey)
    → find_by_tenant_id db s.tenant_id ≡ some s
    → manage_addon config s.tenant_id dto outcome db ≡ finished db'
    → (s' : Subscription) × (find_by_tenant_id db' s.tenant_id ≡ some s')
      × (get_max s' r
          ≡ calculate_effective_limit s.plan_tier r
              (if same_resource dto.resource r then dto.quantity else stored s.id r db))
      × (stored s.id r db'
          ≡ (if same_resource dto.resource r then dto.quantity else stored s.id r db))
unfolding manage_addon
manage_addon-get_max config dto outcome db db' s r found h =
    elim (Bool-cases (is_trial_tier s.plan_tier)) [
      | inl on_trial ↦ absurd (ground arith)
      | inr paid ↦ elim (Result-cases (get_addon_price_id config dto.resource)) [
        | inr (e, refused) ↦ absurd (ground arith)
        | inl (price, priced) ↦ elim (Option-cases (asked_paddle config db s dto outcome)) [
          | inr (thrown, raises) ↦ absurd (ground arith)
          | inl fine ↦
              let (kept, limits) = written db s dto price r found in
              let same : recalculate_effective_limits s.tenant_id (write_addon s dto price db)
                  ≡ db' =
                ground arith in
              (
                after_write db s dto price,
                subst (λ d. find_by_tenant_id d s.tenant_id ≡ some (after_write db s dto price))
                    same kept,
                limits,
                ap (λ d. stored s.id r d) (sym same)
                    ∙ stored-recalculate (write_addon s dto price db) s.tenant_id s.id r
                    ∙ stored-write_addon db s dto price r,
              )
        ]
      ]
    ]
