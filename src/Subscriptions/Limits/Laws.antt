-- ===== src/Subscriptions/Limits/Laws.antt =====
-- What the quota lets through, and what it keeps.
use Prim.Native.String.{String}
use wash_flow.Prelude.{
  ℕ, ◌+◌, ◌≤◌, ◌<◌, ◌≡◌, ◌⊎◌, inl, inr, refl, sym, subst, ◌∙◌, true, false, none, some, Result, ok,
  err, Option-cases, Result-cases, arith, Error, forbidden,
}
use wash_flow.Subscriptions.Plans.{ResourceKey}
use wash_flow.Subscriptions.Limits.{
  Subscription, Quotas, find_by_tenant_id, count_resource, get_max, is_trial_expired, is_inactive,
  within, check_subscription, check_limit, assert_allowed, with_resource_limit, with_row,
  create_row, CountedRow,
}

-- The subscription, if there is one, lets one more of the resource in.
abbrev pub Admits : Quotas → ℕ → ResourceKey → ℕ → Type 0
Admits db tenant_id resource now =
    (s : Subscription)
    → find_by_tenant_id db tenant_id ≡ some s
    → (is_trial_expired s now ≡ false)
      × (is_inactive s now ≡ false)
      × ((m : ℕ) → get_max s resource ≡ some m → count_resource db tenant_id resource < m)

module _ {A : Type 0} (tenant_id : ℕ) (resource : ResourceKey)
    (operation : Quotas → Result (A × Quotas)) (now : ℕ) (db : Quotas) where
  checked :
      (s : Subscription)
      → find_by_tenant_id db tenant_id ≡ some s
      → assert_allowed (check_limit db tenant_id resource now) ≡ ok tt
      → (is_trial_expired s now ≡ false)
        × (is_inactive s now ≡ false)
        × (within (count_resource db tenant_id resource) (get_max s resource) ≡ true)
  unfolding check_limit check_subscription assert_allowed
  checked s found h = (ground arith, ground arith, ground arith)

  admits :
      assert_allowed (check_limit db tenant_id resource now) ≡ ok tt
      → Admits db tenant_id resource now
  admits h s found =
      let (not_expired, live, room) = checked s found h in
      (not_expired, live, λ m limited. ground arith)

  passes :
      Admits db tenant_id resource now
      → assert_allowed (check_limit db tenant_id resource now) ≡ ok tt
  unfolding check_limit check_subscription assert_allowed
  passes admitted = elim (Option-cases (find_by_tenant_id db tenant_id)) [
    | inl nobody ↦ ground arith
    | inr (s, found) ↦
        let (not_expired, live, room) = admitted s found in
        elim (Option-cases (get_max s resource)) [
          | inl unlimited ↦ ground arith
          | inr (m, limited) ↦ let under = room m limited in ground arith
        ]
  ]

  refused_forbidden :
      (e : Error)
      → assert_allowed (check_limit db tenant_id resource now) ≡ err e
      → (m : String) × (e ≡ forbidden m)
  unfolding assert_allowed
  refused_forbidden (forbidden m) h = (m, refl)
  refused_forbidden e h = absurd (ground arith)

  -- An operation under the quota runs, and gives what it gives on its own, exactly when the
  -- subscription, if there is one, is neither expired nor inactive and its limit is above what the
  -- tenant has; otherwise the call is forbidden and nothing runs.
  pub with_resource_limit-Admits :
      ((with_resource_limit tenant_id resource operation now db ≡ operation db)
        × Admits db tenant_id resource now)
      ⊎ (((m : String) × (with_resource_limit tenant_id resource operation now db
              ≡ err (forbidden m)))
          × (Admits db tenant_id resource now → ⊥))
  unfolding with_resource_limit
  with_resource_limit-Admits =
      elim (Result-cases (assert_allowed (check_limit db tenant_id resource now))) [
        | inl (tt, allowed) ↦ inl (ground arith, admits allowed)
        | inr (e, refused) ↦
            let (m, same) = refused_forbidden e refused in
            inr ((m, ground arith), λ admitted. let passed = passes admitted in ground arith)
      ]

-- No tenant with a limit has more of a resource than the limit.
abbrev pub InQuota : Quotas → Type 0
InQuota db =
    (tenant_id : ℕ) (resource : ResourceKey) (s : Subscription) (m : ℕ)
    → find_by_tenant_id db tenant_id ≡ some s
    → get_max s resource ≡ some m
    → count_resource db tenant_id resource ≤ m

created : ResourceKey → ℕ → ℕ → Quotas → Quotas
created resource new_id tenant_id db =
    with_row resource (record { id = new_id; tenant_id = tenant_id; deleted_at = none }) db

-- Only the tenant's own count of the resource goes up, by one.
count_resource-created :
    (db : Quotas) (resource r : ResourceKey) (new_id tenant_id t : ℕ)
    → (count_resource (created resource new_id tenant_id db) t r ≤ count_resource db t r)
      ⊎ ((r ≡ resource)
          × (t ≡ tenant_id)
          × (count_resource (created resource new_id tenant_id db) t r ≡ count_resource db t r + 1))
unfolding count_resource created
count_resource-created db resource r new_id tenant_id t = ground arith

created_same :
    (db : Quotas) (resource : ResourceKey) (new_id tenant_id t : ℕ)
    → find_by_tenant_id (created resource new_id tenant_id db) t ≡ find_by_tenant_id db t
unfolding find_by_tenant_id created
created_same db resource new_id tenant_id t = ground arith

created-InQuota :
    (tenant_id : ℕ) (resource : ResourceKey) (new_id now : ℕ) (db : Quotas)
    → Admits db tenant_id resource now
    → InQuota db
    → InQuota (created resource new_id tenant_id db)
created-InQuota tenant_id resource new_id now db admitted kept t r s m found limited =
    let found_before = sym (created_same db resource new_id tenant_id t) ∙ found in
    elim (count_resource-created db resource r new_id tenant_id t) [
      | inl no_more ↦ omega (arith, no_more, kept t r s m found_before limited)
      | inr (same_resource, same_tenant, one_more) ↦
          let (_, _, room) =
            admitted s (subst (λ u. find_by_tenant_id db u ≡ some s) same_tenant found_before) in
          let under : count_resource db tenant_id resource < m =
            room m (subst (λ k. get_max s k ≡ some m) same_resource limited) in
          let before : count_resource db t r ≡ count_resource db tenant_id resource =
            rw (same_resource, same_tenant) refl in
          omega (arith, one_more, before, under)
    ]

-- A creation under the quota keeps every tenant within its limits, its own and every other.
pub create_row-InQuota :
    (tenant_id : ℕ) (resource : ResourceKey) (new_id now : ℕ) (db db' : Quotas) (row : CountedRow)
    → with_resource_limit tenant_id resource (create_row resource new_id tenant_id) now db
      ≡ ok (row, db')
    → InQuota db
    → InQuota db'
unfolding create_row created
create_row-InQuota tenant_id resource new_id now db db' row h kept =
    elim (with_resource_limit-Admits tenant_id resource (create_row resource new_id tenant_id) now
      db) [
        | inl (ran, admitted) ↦
            let left : created resource new_id tenant_id db ≡ db' = ground (arith, ran, h) in
            subst InQuota left (created-InQuota tenant_id resource new_id now db admitted kept)
        | inr ((message, refused), _) ↦ absurd (ground (arith, refused, h))
      ]
