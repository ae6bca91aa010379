-- ===== src/Subscriptions/Webhook/Sync.antt =====
-- The add-ons of a subscription once Paddle's items are written.
use wash_flow.Prelude.{
  ℕ, ◌≡◌, refl, ap, ◌∙◌, Bool, not, true, false, some, none, List, [], ◌∷◌, map, ◌&&◌, ltb, ◌==◌,
  arith, any, filter, if◌then◌else◌, Bool-cases, inl, inr,
}
use wash_flow.Subscriptions.Plans.{ResourceKey}
use wash_flow.Subscriptions.Limits.{SubscriptionAddon, Quotas}
use wash_flow.Subscriptions.Service.{same_resource}
use wash_flow.Subscriptions.Addons.{is_addon, upsert_addon, delete_addon}
use wash_flow.Subscriptions.Addons.Laws.{
  stored, quantity-missing, stored-upsert_addon, stored-delete_addon, same_resource_eq,
}
use wash_flow.Subscriptions.Webhook.{
  AddonUpsert, upsert_all, delete_all, has_resource, stale_resources, sync_listed,
}

-- The last quantity that some add-ons give a resource.
abbrev pub last_quantity : List AddonUpsert → ResourceKey → ℕ → ℕ
last_quantity [] r q = q
last_quantity (u ∷ us) r q = last_quantity us r (if has_resource r u then u.quantity else q)

abbrev pub removes : ResourceKey → AddonUpsert → Bool
removes r u = has_resource r u && not (ltb 0 u.quantity)

-- What Paddle's add-ons say of a resource: nothing if it is not there or once with the quantity 0,
-- else the last quantity.
abbrev pub paddle_quantity : List AddonUpsert → ResourceKey → ℕ
paddle_quantity listed r = if any (removes r) listed then 0 else last_quantity listed r 0

abbrev among : ResourceKey → List ResourceKey → Bool
among w rs = any (λ r. same_resource r w) rs

module _ (id : ℕ) (w : ResourceKey) where
  stored-upsert_all :
      (us : List AddonUpsert) (db : Quotas)
      → stored id w (upsert_all id us db) ≡ last_quantity us w (stored id w db)
  stored-upsert_all [] db = refl
  stored-upsert_all (u ∷ us) db =
      let one = stored-upsert_addon id u.resource w u.quantity (some u.price_id) db in
      stored-upsert_all us (upsert_addon id u.resource u.quantity (some u.price_id) db)
      ∙ ap (λ q. last_quantity us w q) one

  stored-delete_all :
      (rs : List ResourceKey) (db : Quotas)
      → stored id w (delete_all id rs db) ≡ (if among w rs then 0 else stored id w db)
  stored-delete_all [] db = refl
  stored-delete_all (r ∷ rs) db =
      let one = stored-delete_addon id r w db in
      let rest = stored-delete_all rs (delete_addon id r db) in
      elim (Bool-cases (same_resource r w)) [ inl same ↦ ground arith | inr apart ↦ ground arith ]

  -- Without an item for the resource the quantity stays.
  last_quantity-missing :
      (us : List AddonUpsert) (q : ℕ) → any (has_resource w) us ≡ false → last_quantity us w q ≡ q
  last_quantity-missing [] q h = refl
  last_quantity-missing (u ∷ us) q h = ground (arith, last_quantity-missing us q)

  abbrev positive : List AddonUpsert → List AddonUpsert
  positive us = filter (λ u. ltb 0 u.quantity) us

  last_quantity-filter :
      (us : List AddonUpsert) (q : ℕ)
      → any (removes w) us ≡ false
      → last_quantity (positive us) w q ≡ last_quantity us w q
  last_quantity-filter [] q h = refl
  last_quantity-filter (u ∷ us) q h = elim (Bool-cases (has_resource w u)) [
    | inl hit ↦ let rest = last_quantity-filter us u.quantity (ground arith) in ground arith
    | inr miss ↦
        let rest = last_quantity-filter us q (ground arith) in
        elim (Bool-cases (ltb 0 u.quantity)) [
          | inl kept ↦ ground arith
          | inr dropped ↦ ground arith
        ]
  ]

  -- With an item for the resource, the quantity before does not matter.
  last_quantity-start :
      (us : List AddonUpsert) (q q' : ℕ)
      → any (has_resource w) us ≡ true
      → last_quantity us w q ≡ last_quantity us w q'
  last_quantity-start [] q q' h = cc
  last_quantity-start (u ∷ us) q q' h = elim (Bool-cases (has_resource w u)) [
    | inl hit ↦ ground arith
    | inr miss ↦ let rest = last_quantity-start us q q' (ground arith) in ground arith
  ]

  deleted_among :
      (us : List AddonUpsert)
      → among w (map (λ u. u.resource) (filter (λ u. not (ltb 0 u.quantity)) us))
        ≡ any (removes w) us
  deleted_among [] = refl
  deleted_among (u ∷ us) = ground (arith, deleted_among us)

  stale_has :
      (listed : List AddonUpsert) (rows : List SubscriptionAddon)
      → among w (
          map
            (λ a. a.resource)
            (filter
              (λ a. not (any (has_resource a.resource) listed))
              (filter (λ a. a.subscription_id == id) rows)))
        ≡ (not (any (has_resource w) listed) && any (is_addon id w) rows)
  stale_has listed [] = ground arith
  stale_has listed (a ∷ rows) =
      let rest = stale_has listed rows in
      elim (Bool-cases (same_resource a.resource w)) [
        | inl same ↦
            let seen = ap (λ r. any (has_resource r) listed) (same_resource_eq a.resource w same) in
            ground arith
        | inr apart ↦ ground arith
      ]

  stale_among :
      (listed : List AddonUpsert) (db : Quotas)
      → among w (stale_resources id listed db)
        ≡ (not (any (has_resource w) listed) && any (is_addon id w) db.addons)
  unfolding stale_resources
  stale_among listed db = stale_has listed db.addons

  removes-has_resource :
      (us : List AddonUpsert) → any (has_resource w) us ≡ false → any (removes w) us ≡ false
  removes-has_resource [] h = refl
  removes-has_resource (u ∷ us) h = ground (arith, removes-has_resource us)

  kept_quantity :
      (listed : List AddonUpsert) (db : Quotas)
      → any (removes w) listed ≡ false
      → (if among w (stale_resources id listed db)
          then 0
          else last_quantity (positive listed) w (stored id w db))
        ≡ last_quantity listed w 0
  kept_quantity listed db h =
      let stale = stale_among listed db in
      let same = last_quantity-filter listed (stored id w db) h in
      elim (Bool-cases (any (has_resource w) listed)) [
        | inl there ↦
            let start = last_quantity-start listed (stored id w db) 0 there in ground arith
        | inr missing ↦
            let zero_there = last_quantity-missing listed 0 missing in
            let kept = last_quantity-missing listed (stored id w db) missing in
            elim (Bool-cases (any (is_addon id w) db.addons)) [
              | inl old ↦ ground arith
              | inr never ↦
                  let nothing = quantity-missing id w 0 none db.addons 0 never in ground arith
            ]
      ]

  pub stored-sync_listed :
      (listed : List AddonUpsert) (db : Quotas)
      → stored id w (sync_listed id listed db) ≡ paddle_quantity listed w
  stored-sync_listed listed db =
      let upserted = upsert_all id (positive listed) db in
      let gone = map (λ u. u.resource) (filter (λ u. not (ltb 0 u.quantity)) listed) in
      let first = stored-delete_all gone upserted in
      let second = stored-delete_all (stale_resources id listed db) (delete_all id gone upserted) in
      let quantities = stored-upsert_all (positive listed) db in
      let removed = deleted_among listed in
      elim (Bool-cases (any (removes w) listed)) [
        | inl gone_there ↦ ground arith
        | inr stays ↦ let kept = kept_quantity listed db stays in ground arith
      ]
