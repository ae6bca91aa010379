-- ===== src/Subscriptions/Webhook/RoundTrip.antt =====
-- The items that a change of plan sends to Paddle, read back from its webhook.
use Prim.Native.String.{String}
use wash_flow.Prelude.{
  ℕ, ◌≡◌, refl, subst, Bool, false, Option, some, none, List, [], ◌∷◌, map, ltb, arith, any, filter,
  get_or, ok, Result-cases, Bool-cases, inl, inr,
}
use wash_flow.Subscriptions.Plans.{
  PlanTier, trial, starter, business, enterprise, ResourceKey, branches, work_posts, users,
  services,
}
use wash_flow.Subscriptions.Limits.{BillingInterval, monthly, yearly, SubscriptionAddon}
use wash_flow.Subscriptions.Service.{same_resource, addon_quantity}
use wash_flow.Subscriptions.Paddle.{
  PaddleItem, WebhookItem, get_price_id, get_addon_price_id, addon_items, build_all_paddle_items,
  addon_resource, extract_plan_tier, price_key, default_addon_price_id,
}
use wash_flow.Subscriptions.Paddle.Laws.{
  unconfigured, echoed, build_all_paddle_items-extract_plan_tier,
}
use wash_flow.Subscriptions.Addons.Laws.{same_resource_eq}
use wash_flow.Subscriptions.Webhook.{AddonUpsert, addon_of_item, addons_in}
use wash_flow.Subscriptions.Webhook.Sync.{paddle_quantity, last_quantity, removes}

abbrev of_resource : ResourceKey → SubscriptionAddon → Bool
of_resource r a = same_resource a.resource r

-- A resource stands in at most one row.
abbrev pub IsDistinct : List SubscriptionAddon → Type 0
IsDistinct [] = Unit
IsDistinct (a ∷ rest) = (any (of_resource a.resource) rest ≡ false) × IsDistinct rest

-- What the webhook reads of an add-on's item.
abbrev read_back : SubscriptionAddon → AddonUpsert
read_back a = record {
  resource = a.resource;
  quantity = a.quantity;
  price_id = default_addon_price_id a.resource;
}

abbrev item_of : String → ℕ → WebhookItem
item_of id q = echoed (record { price_id = id; quantity = q })

reads :
    (price id : String) (q : ℕ) (u : Option AddonUpsert)
    → addon_of_item unconfigured (item_of price q) ≡ u
    → ok price ≡ ok id
    → addon_of_item unconfigured (item_of id q) ≡ u
reads price id q u known h =
    let same : price ≡ id = cc h in
    subst (λ i. addon_of_item unconfigured (item_of i q) ≡ u) same known

reads_resource :
    (r : ResourceKey) (id : String) (q : ℕ)
    → get_addon_price_id unconfigured r ≡ ok id
    → addon_of_item unconfigured (item_of id q)
      ≡ some (record { resource = r; quantity = q; price_id = default_addon_price_id r })
unfolding get_addon_price_id addon_of_item addon_resource default_addon_price_id
reads_resource branches id q h = reads "pri_addon_branches" id q _ refl h
reads_resource work_posts id q h = reads "pri_addon_work_posts" id q _ refl h
reads_resource users id q h = reads "pri_addon_users" id q _ refl h
reads_resource services id q h = reads "pri_addon_services" id q _ refl h

-- An item of a plan is no add-on.
no_addon :
    (tier : PlanTier) (interval : BillingInterval) (id : String)
    → get_price_id unconfigured tier interval ≡ ok id
    → addon_of_item unconfigured (item_of id 1) ≡ none
unfolding get_price_id addon_of_item addon_resource default_addon_price_id price_key
no_addon trial monthly id h = ground arith
no_addon trial yearly id h = ground arith
no_addon starter monthly id h = reads "pri_starter_monthly" id 1 none refl h
no_addon starter yearly id h = reads "pri_starter_yearly" id 1 none refl h
no_addon business monthly id h = reads "pri_business_monthly" id 1 none refl h
no_addon business yearly id h = reads "pri_business_yearly" id 1 none refl h
no_addon enterprise monthly id h = reads "pri_enterprise_monthly" id 1 none refl h
no_addon enterprise yearly id h = reads "pri_enterprise_yearly" id 1 none refl h

-- The add-ons that are sent are those with a quantity.
sent_back :
    (addons : List SubscriptionAddon) (items : List PaddleItem)
    → addon_items unconfigured addons ≡ ok items
    → addons_in unconfigured (map echoed items)
      ≡ map read_back (filter (λ a. ltb 0 a.quantity) addons)
unfolding addon_items addons_in
sent_back [] items h =
    let nothing : [] ≡ items = ground arith in
    subst (λ l. addons_in unconfigured (map echoed l) ≡ []) nothing refl
sent_back (a ∷ rest) items h = elim (Bool-cases (ltb 0 a.quantity)) [
  | inr none_of_it ↦ let others = sent_back rest items (ground arith) in ground arith
  | inl some_of_it ↦ elim (Result-cases (get_addon_price_id unconfigured a.resource)) [
    | inr (e, refused) ↦ absurd (ground arith)
    | inl (id, priced) ↦ elim (Result-cases (addon_items unconfigured rest)) [
      | inr (e, refused) ↦ absurd (ground arith)
      | inl (more, listed) ↦
          let others = sent_back rest more listed in
          let one = reads_resource a.resource id a.quantity priced in
          let whole : (record { price_id = id; quantity = a.quantity } ∷ more) ≡ items =
            ground arith in
          subst
            (λ l.
              addons_in unconfigured (map echoed l)
              ≡ map read_back (filter (λ a. ltb 0 a.quantity) (a ∷ rest)))
            whole (ground arith)
    ]
  ]
]

module _ (w : ResourceKey) where
  abbrev read : List SubscriptionAddon → List AddonUpsert
  read addons = map read_back (filter (λ a. ltb 0 a.quantity) addons)

  nothing_removed : (addons : List SubscriptionAddon) → any (removes w) (read addons) ≡ false
  nothing_removed [] = refl
  nothing_removed (a ∷ rest) = ground (arith, nothing_removed rest)

  quantity-missing :
      (addons : List SubscriptionAddon) (q : ℕ)
      → any (of_resource w) addons ≡ false
      → (addon_quantity addons w q ≡ q) × (last_quantity (read addons) w q ≡ q)
  quantity-missing [] q h = (refl, refl)
  quantity-missing (a ∷ rest) q h =
      let (stored, read_there) = quantity-missing rest q (ground arith) in
      (ground arith, ground arith)

  last_quantity-read :
      (addons : List SubscriptionAddon)
      → IsDistinct addons
      → last_quantity (read addons) w 0 ≡ addon_quantity addons w 0
  last_quantity-read [] distinct = refl
  last_quantity-read (a ∷ rest) (apart, distinct) = elim (Bool-cases (of_resource w a)) [
    | inr other ↦ let others = last_quantity-read rest distinct in ground arith
    | inl own ↦
        let gone : any (of_resource w) rest ≡ false =
          subst (λ r. any (of_resource r) rest ≡ false) (same_resource_eq a.resource w own) apart in
        let (stored, read_there) = quantity-missing rest a.quantity gone in
        let (stored_zero, read_zero) = quantity-missing rest 0 gone in
        elim (Bool-cases (ltb 0 a.quantity)) [
          | inl some_of_it ↦ ground arith
          | inr none_of_it ↦ ground arith
        ]
  ]

-- With Paddle's default prices, a change of plan comes back as it was asked for: from the items that
-- are sent, the webhook reads the new tier, and for each resource the quantity that the tenant's
-- add-ons have, where no resource stands in two rows.
pub build_all_paddle_items-paddle_quantity :
    (tier : PlanTier) (interval : Option BillingInterval) (addons : List SubscriptionAddon)
    (items : List PaddleItem) (custom_plan_tier : Option String) (r : ResourceKey)
    → build_all_paddle_items unconfigured tier interval addons ≡ ok items
    → IsDistinct addons
    → (extract_plan_tier unconfigured (some (map echoed items)) custom_plan_tier ≡ tier)
      × (paddle_quantity (addons_in unconfigured (map echoed items)) r ≡ addon_quantity addons r 0)
unfolding build_all_paddle_items addons_in
build_all_paddle_items-paddle_quantity tier interval addons items custom_plan_tier r h distinct = (
  build_all_paddle_items-extract_plan_tier tier interval addons items custom_plan_tier h,
  elim (Result-cases (get_price_id unconfigured tier (get_or interval monthly))) [
    | inr (e, refused) ↦ absurd (ground arith)
    | inl (id, priced) ↦ elim (Result-cases (addon_items unconfigured addons)) [
      | inr (e, refused) ↦ absurd (ground arith)
      | inl (others, listed) ↦
          let plan = no_addon tier (get_or interval monthly) id priced in
          let back = sent_back addons others listed in
          let kept = nothing_removed r addons in
          let same = last_quantity-read r addons distinct in
          let sent : (record { price_id = id; quantity = 1 } ∷ others) ≡ items = ground arith in
          subst
            (λ l.
              paddle_quantity (addons_in unconfigured (map echoed l)) r ≡ addon_quantity addons r 0)
            sent (ground arith)
    ]
  ],
)
