-- ===== src/Subscriptions/Addons/Laws.antt =====
-- The quantities of a subscription's add-ons after a write.
use Prim.Native.String.{String}
use wash_flow.Prelude.{
  ℕ, ◌≡◌, refl, ap, subst, ◌∙◌, not, true, false, Option, none, List, [], ◌∷◌, ◌==◌, arith, any,
  filter, update_where, if◌then◌else◌, Bool-cases, inl, inr,
}
use wash_flow.Subscriptions.Plans.{ResourceKey, branches, work_posts, users, services}
use wash_flow.Subscriptions.Limits.{SubscriptionAddon, Quotas}
use wash_flow.Subscriptions.Service.{same_resource, addon_quantity}
use wash_flow.Subscriptions.Addons.{is_addon, upsert_addon, delete_addon}

-- The quantity of a resource among the rows of a subscription.
abbrev pub quantity_in : ℕ → List SubscriptionAddon → ResourceKey → ℕ → ℕ
quantity_in id rows r q = addon_quantity (filter (λ a. a.subscription_id == id) rows) r q

pub same_resource_eq : (a b : ResourceKey) → same_resource a b ≡ true → a ≡ b
same_resource_eq branches branches h = refl
same_resource_eq branches work_posts h = cc
same_resource_eq branches users h = cc
same_resource_eq branches services h = cc
same_resource_eq work_posts branches h = cc
same_resource_eq work_posts work_posts h = refl
same_resource_eq work_posts users h = cc
same_resource_eq work_posts services h = cc
same_resource_eq users branches h = cc
same_resource_eq users work_posts h = cc
same_resource_eq users users h = refl
same_resource_eq users services h = cc
same_resource_eq services branches h = cc
same_resource_eq services work_posts h = cc
same_resource_eq services users h = cc
same_resource_eq services services h = refl

pub same_resource_refl : (r : ResourceKey) → same_resource r r ≡ true
same_resource_refl branches = refl
same_resource_refl work_posts = refl
same_resource_refl users = refl
same_resource_refl services = refl

-- What a row adds to the quantity counted so far.
abbrev taken : ℕ → ResourceKey → SubscriptionAddon → ℕ → ℕ
taken id r a q = if is_addon id r a then a.quantity else q

quantity_in_step :
    (id : ℕ) (a : SubscriptionAddon) (rows : List SubscriptionAddon) (r : ResourceKey) (q : ℕ)
    → quantity_in id (a ∷ rows) r q ≡ quantity_in id rows r (taken id r a q)
quantity_in_step id a rows r q = elim (Bool-cases (a.subscription_id == id)) [
  | inl own ↦ ground arith
  | inr other ↦ ground arith
]

module _ (id : ℕ) (r : ResourceKey) (quantity : ℕ) (price : Option String) where
  abbrev change : SubscriptionAddon → SubscriptionAddon
  change a = record a { quantity = quantity; paddle_price_id = price }

  abbrev changed : List SubscriptionAddon → List SubscriptionAddon
  changed rows = update_where (is_addon id r) change rows

  pub quantity-missing :
      (rows : List SubscriptionAddon) (q : ℕ)
      → any (is_addon id r) rows ≡ false
      → quantity_in id rows r q ≡ q
  quantity-missing [] q missing = refl
  quantity-missing (a ∷ rows) q missing =
      let step = quantity_in_step id a rows r q in
      let rest = quantity-missing rows q (ground arith) in
      let kept : taken id r a q ≡ q = ground arith in
      step ∙ ap (λ x. quantity_in id rows r x) kept ∙ rest

  quantity-update :
      (rows : List SubscriptionAddon) (q : ℕ)
      → quantity_in id (changed rows) r q ≡ (if any (is_addon id r) rows then quantity else q)
  quantity-update [] q = refl
  quantity-update (a ∷ rows) q = elim (Bool-cases (is_addon id r a)) [
    | inl hit ↦
        let step = quantity_in_step id (change a) (changed rows) r q in
        let rest = quantity-update rows quantity in ground arith
    | inr miss ↦
        let step = quantity_in_step id a (changed rows) r q in
        let rest = quantity-update rows q in ground arith
  ]

  -- Another resource.
  module _ (w : ResourceKey) (apart : same_resource r w ≡ false) where
    passes_over : (a : SubscriptionAddon) → is_addon id r a ≡ true → is_addon id w a ≡ false
    passes_over a hit =
        let same = ap (λ x. same_resource x w) (same_resource_eq a.resource r (ground arith)) in
        ground arith

    quantity-update_other :
        (rows : List SubscriptionAddon) (q : ℕ)
        → quantity_in id (changed rows) w q ≡ quantity_in id rows w q
    quantity-update_other [] q = refl
    quantity-update_other (a ∷ rows) q = elim (Bool-cases (is_addon id r a)) [
      | inl hit ↦
          let miss = passes_over a hit in
          let step = quantity_in_step id (change a) (changed rows) w q in
          let old = quantity_in_step id a rows w q in
          let rest = quantity-update_other rows q in ground arith
      | inr miss ↦
          let step = quantity_in_step id a (changed rows) w q in
          let old = quantity_in_step id a rows w q in
          let rest = quantity-update_other rows (taken id w a q) in ground arith
    ]

    quantity-delete_other :
        (rows : List SubscriptionAddon) (q : ℕ)
        → quantity_in id (filter (λ a. not (is_addon id r a)) rows) w q ≡ quantity_in id rows w q
    quantity-delete_other [] q = refl
    quantity-delete_other (a ∷ rows) q = elim (Bool-cases (is_addon id r a)) [
      | inl hit ↦
          let miss = passes_over a hit in
          let old = quantity_in_step id a rows w q in
          let rest = quantity-delete_other rows q in ground arith
      | inr miss ↦
          let step = quantity_in_step id a (filter (λ a. not (is_addon id r a)) rows) w q in
          let old = quantity_in_step id a rows w q in
          let rest = quantity-delete_other rows (taken id w a q) in ground arith
    ]

  quantity-delete :
      (rows : List SubscriptionAddon) (q : ℕ)
      → quantity_in id (filter (λ a. not (is_addon id r a)) rows) r q ≡ q
  quantity-delete [] q = refl
  quantity-delete (a ∷ rows) q = elim (Bool-cases (is_addon id r a)) [
    | inl hit ↦ let rest = quantity-delete rows q in ground arith
    | inr miss ↦
        let step = quantity_in_step id a (filter (λ a. not (is_addon id r a)) rows) r q in
        let rest = quantity-delete rows q in ground arith
  ]

-- The quantity of a resource in the rows of a subscription, by its identifier.
abbrev pub stored : ℕ → ResourceKey → Quotas → ℕ
stored id w db = quantity_in id db.addons w 0

stored-upsert_same :
    (id : ℕ) (r : ResourceKey) (quantity : ℕ) (price : Option String) (db : Quotas)
    → stored id r (upsert_addon id r quantity price db) ≡ quantity
unfolding upsert_addon
stored-upsert_same id r quantity price db = elim (Bool-cases (any (is_addon id r) db.addons)) [
  | inl there ↦ let updated = quantity-update id r quantity price db.addons 0 in ground arith
  | inr missing ↦
      let a : SubscriptionAddon = record {
        subscription_id = id;
        resource = r;
        quantity = quantity;
        paddle_price_id = price;
      } in
      let step = quantity_in_step id a db.addons r 0 in
      let rest = quantity-missing id r quantity price db.addons quantity missing in
      let own : same_resource r r ≡ true = same_resource_refl r in ground arith
]

stored-upsert_other :
    (id : ℕ) (r w : ResourceKey) (quantity : ℕ) (price : Option String) (db : Quotas)
    → same_resource r w ≡ false
    → stored id w (upsert_addon id r quantity price db) ≡ stored id w db
unfolding upsert_addon
stored-upsert_other id r w quantity price db apart =
    elim (Bool-cases (any (is_addon id r) db.addons)) [
      | inl there ↦
          let updated = quantity-update_other id r quantity price w apart db.addons 0 in
          ground arith
      | inr missing ↦
          let a : SubscriptionAddon = record {
            subscription_id = id;
            resource = r;
            quantity = quantity;
            paddle_price_id = price;
          } in
          let step = quantity_in_step id a db.addons w 0 in ground arith
    ]

pub stored-upsert_addon :
    (id : ℕ) (r w : ResourceKey) (quantity : ℕ) (price : Option String) (db : Quotas)
    → stored id w (upsert_addon id r quantity price db)
      ≡ (if same_resource r w then quantity else stored id w db)
stored-upsert_addon id r w quantity price db = elim (Bool-cases (same_resource r w)) [
  | inl same ↦
      let own =
        subst (λ x. stored id x (upsert_addon id r quantity price db) ≡ quantity)
          (same_resource_eq r w same) (stored-upsert_same id r quantity price db) in
      ground arith
  | inr apart ↦ let kept = stored-upsert_other id r w quantity price db apart in ground arith
]

pub stored-delete_addon :
    (id : ℕ) (r w : ResourceKey) (db : Quotas)
    → stored id w (delete_addon id r db) ≡ (if same_resource r w then 0 else stored id w db)
unfolding delete_addon
stored-delete_addon id r w db = elim (Bool-cases (same_resource r w)) [
  | inl same ↦
      let gone =
        subst (λ x. stored id x (delete_addon id r db) ≡ 0) (same_resource_eq r w same)
          (quantity-delete id r 0 none db.addons 0) in
      ground arith
  | inr apart ↦ let kept = quantity-delete_other id r 0 none w apart db.addons 0 in ground arith
]
