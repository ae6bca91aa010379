-- ===== src/Subscriptions/Paddle/Laws.antt =====
-- What Paddle is asked for comes back.
use Prim.Native.String.{String}
use wash_flow.Prelude.{
  ◌≡◌, refl, arith, Option, Result-cases, inl, inr, get_or, subst, some, none, List, [], ◌∷◌, map,
  ok,
}
use wash_flow.Subscriptions.Plans.{PlanTier, trial, starter, business, enterprise}
use wash_flow.Subscriptions.Limits.{BillingInterval, monthly, yearly, SubscriptionAddon}
use wash_flow.Subscriptions.Paddle.{
  PaddleConfig, PaddleItem, WebhookItem, get_price_id, addon_items, build_all_paddle_items,
  tier_of_items, extract_plan_tier,
}

-- Nothing but the defaults.
abbrev pub unconfigured : PaddleConfig
unconfigured = record { price_ids = []; addon_price_ids = [] }

-- An item as Paddle sends it back.
abbrev pub echoed : PaddleItem → WebhookItem
echoed item = record {
  price_id = some item.price_id;
  plan_tier = none;
  quantity = some item.quantity;
}

abbrev plan_item : String → WebhookItem
plan_item id = record { price_id = some id; plan_tier = none; quantity = some 1 }

price_tier_of :
    (tier : PlanTier) (price id : String) (rest : List WebhookItem)
    → tier_of_items unconfigured (plan_item price ∷ rest) ≡ some tier
    → ok price ≡ ok id
    → tier_of_items unconfigured (plan_item id ∷ rest) ≡ some tier
price_tier_of tier price id rest known h =
    let same : price ≡ id = cc h in
    subst (λ i. tier_of_items unconfigured (plan_item i ∷ rest) ≡ some tier) same known

price_tier :
    (tier : PlanTier) (interval : BillingInterval) (id : String) (rest : List WebhookItem)
    → get_price_id unconfigured tier interval ≡ ok id
    → tier_of_items unconfigured (plan_item id ∷ rest) ≡ some tier
unfolding get_price_id tier_of_items
price_tier trial monthly id rest h = ground arith
price_tier trial yearly id rest h = ground arith
price_tier starter monthly id rest h = price_tier_of starter "pri_starter_monthly" id rest refl h
price_tier starter yearly id rest h = price_tier_of starter "pri_starter_yearly" id rest refl h
price_tier business monthly id rest h = price_tier_of business "pri_business_monthly" id rest refl h
price_tier business yearly id rest h = price_tier_of business "pri_business_yearly" id rest refl h
price_tier enterprise monthly id rest h =
    price_tier_of enterprise "pri_enterprise_monthly" id rest refl h
price_tier enterprise yearly id rest h =
    price_tier_of enterprise "pri_enterprise_yearly" id rest refl h

pub build_all_paddle_items-extract_plan_tier :
    (tier : PlanTier) (interval : Option BillingInterval) (addons : List SubscriptionAddon)
    (items : List PaddleItem) (custom_plan_tier : Option String)
    → build_all_paddle_items unconfigured tier interval addons ≡ ok items
    → extract_plan_tier unconfigured (some (map echoed items)) custom_plan_tier ≡ tier
unfolding build_all_paddle_items extract_plan_tier
build_all_paddle_items-extract_plan_tier tier interval addons items custom_plan_tier h =
    elim (Result-cases (get_price_id unconfigured tier (get_or interval monthly))) [
      | inr (e, refused) ↦ absurd (ground arith)
      | inl (id, priced) ↦ elim (Result-cases (addon_items unconfigured addons)) [
        | inr (e, refused) ↦ absurd (ground arith)
        | inl (others, listed) ↦
            let known = price_tier tier (get_or interval monthly) id (map echoed others) priced in
            let sent : (record { price_id = id; quantity = 1 } ∷ others) ≡ items = ground arith in
            subst
              (λ l. extract_plan_tier unconfigured (some (map echoed l)) custom_plan_tier ≡ tier)
              sent (ground arith)
      ]
    ]
