-- ===== src/TenantPrisma/Laws.antt =====
-- What every query of a tenant's client is held to.
use Prim.Native.String.{String}
use text.Mathlib.Text.{◌==◌ as str_eq}
use text.Mathlib.TextEquality.{eq_iff}
use wash_flow.Prelude.{
  ℕ, Bool, true, ◌≡◌, ◌&&◌, refl, sym, subst, not, false, Option, none, some, List, [], ◌∷◌, map,
  arith, All, get_or, Bool-cases, inl, inr, if◌then◌else◌,
}
use wash_flow.TenantPrisma.{
  Value, null, uuid, Object, Rows, one, many, no_object, Args, Operation, find_many, find_first,
  find_unique, create, create_many, update, update_many, delete, delete_many, count, aggregate,
  group_by, upsert, find_unique_or_throw, find_first_or_throw, create_many_and_return,
  update_many_and_return, should_soft_delete_filter, should_bypass_tenant, key_value, set_key,
  without_key, is_truthy, pinned, hide_deleted, filtered, unique, targeted, owned, owned_all,
  created_one, created_many, upserted, rewrite,
}

pub key_value-set_key :
    (key : String) (v : Value) (o : Object) → key_value key (set_key key v o) ≡ some v
key_value-set_key key v o = let same = (eq_iff key key).1 refl in ground arith

pub key_value-without_other :
    (key other : String) (o : Object)
    → str_eq other key ≡ false
    → key_value key (without_key other o) ≡ key_value key o
key_value-without_other key other [] apart = refl
key_value-without_other key other ((k, v) ∷ o) apart =
    let rest = key_value-without_other key other o apart in
    elim (Bool-cases (str_eq k other)) [
      | inl same ↦
          let differs : str_eq k key ≡ false =
            subst (λ x. str_eq x key ≡ false) (sym ((eq_iff k other).0 same)) apart in
          ground arith
      | inr differs ↦ ground arith
    ]

pub key_value-without : (key : String) (o : Object) → key_value key (without_key key o) ≡ none
key_value-without key [] = refl
key_value-without key ((k, v) ∷ o) = ground (arith, key_value-without key o)

pub key_value-set_other :
    (key other : String) (v : Value) (o : Object)
    → str_eq other key ≡ false
    → key_value key (set_key other v o) ≡ key_value key o
key_value-set_other key other v o apart =
    let kept = key_value-without_other key other o apart in ground arith

-- The operations that `forTenant` has a case for.
abbrev pub is_rewritten : Operation → Bool
is_rewritten create_many_and_return = false
is_rewritten update_many_and_return = false
is_rewritten _ = true

module _ (tenant_id : ℕ) (model : String) where
  -- The condition that the row is the tenant's is there.
  abbrev pub IsPinned : Object → Type 0
  IsPinned o = key_value "tenantId" o ≡ some (uuid tenant_id)

  abbrev pub PinsWhere : Args → Type 0
  PinsWhere args = (o : Object) × (args.where_clause ≡ some o) × IsPinned o

  abbrev pub PinsData : Option Object → Type 0
  PinsData none = Unit
  PinsData (some o) = IsPinned o

  abbrev pub PinsRows : Rows → Type 0
  PinsRows (one o) = IsPinned o
  PinsRows (many os) = All IsPinned os
  PinsRows no_object = ⊥

  -- What an operation selects, and the rows that it inserts, are the tenant's.
  abbrev pub IsScoped : Operation → Args → Type 0
  IsScoped create args = PinsData args.data_of
  IsScoped create_many args = PinsRows args.rows_of
  IsScoped upsert args = PinsWhere args × PinsData args.create_of
  IsScoped _ args = PinsWhere args

  module _ (own : should_bypass_tenant model ≡ false) where
    pins : (o : Object) → IsPinned (pinned tenant_id model o)
    pins o = let set = key_value-set_key "tenantId" (uuid tenant_id) o in ground arith

    pins-All : (os : List Object) → All IsPinned (map (pinned tenant_id model) os)
    pins-All [] = tt
    pins-All (o ∷ os) = (pins o, pins-All os)

    hide_deleted-IsPinned : (o : Object) → IsPinned o → IsPinned (hide_deleted tenant_id model o)
    unfolding hide_deleted
    hide_deleted-IsPinned o h =
        let cleaned = without_key "_includeDeleted" o in
        let kept = key_value-without_other "tenantId" "_includeDeleted" o refl in
        let set = key_value-set_other "tenantId" "deletedAt" null cleaned refl in
        elim (Bool-cases (should_soft_delete_filter model)) [
          | inr hard ↦ ground arith
          | inl soft ↦ elim (Bool-cases (is_truthy (key_value "_includeDeleted" o))) [
            | inl all_rows ↦ ground arith
            | inr live_rows ↦ ground arith
          ]
        ]

    filtered-PinsWhere : (args : Args) → PinsWhere (filtered tenant_id model args)
    unfolding filtered
    filtered-PinsWhere args =
        let o = pinned tenant_id model (get_or args.where_clause []) in
        (
          hide_deleted tenant_id model o,
          ground arith,
          hide_deleted-IsPinned o (pins (get_or args.where_clause [])),
        )

    targeted-PinsWhere : (args : Args) → PinsWhere (targeted tenant_id model args)
    unfolding targeted
    targeted-PinsWhere args = (
      pinned tenant_id model (get_or args.where_clause []),
      ground arith,
      pins (get_or args.where_clause []),
    )

    unique-PinsWhere : (args : Args) → PinsWhere (unique tenant_id model args)
    unfolding unique
    unique-PinsWhere args =
        let object = get_or args.where_clause [] in
        let extra = pinned tenant_id model (without_key "_includeDeleted" object) in
        let pinned_there = pins (without_key "_includeDeleted" object) in
        let set = key_value-set_other "tenantId" "deletedAt" null extra refl in
        elim (Bool-cases (
          should_soft_delete_filter model
          && not (is_truthy (key_value "_includeDeleted" object)))) [
            | inl live_rows ↦ (set_key "deletedAt" null extra, ground arith, ground arith)
            | inr all_rows ↦ (extra, ground arith, pinned_there)
          ]

    owned-PinsData : (d : Option Object) → PinsData (owned tenant_id model d)
    owned-PinsData none = tt
    owned-PinsData (some o) = pins o

    owned_all-PinsRows : (rows : Rows) → PinsRows (owned_all tenant_id model rows)
    owned_all-PinsRows (one o) = pins o
    owned_all-PinsRows (many os) = pins-All os
    owned_all-PinsRows no_object =
        subst (λ b. PinsRows (if b then no_object else one (("tenantId", uuid tenant_id) ∷ [])))
          (sym own) refl

    upserted-IsScoped : (args : Args) → IsScoped upsert (upserted tenant_id model args)
    unfolding upserted
    upserted-IsScoped args = (targeted-PinsWhere args, owned-PinsData args.create_of)

    created_one-PinsData : (args : Args) → PinsData (created_one tenant_id model args).data_of
    unfolding created_one
    created_one-PinsData args = owned-PinsData args.data_of

    created_many-PinsRows : (args : Args) → PinsRows (created_many tenant_id model args).rows_of
    unfolding created_many
    created_many-PinsRows args = owned_all-PinsRows args.rows_of

    -- Whatever arguments a caller gives, and whatever tenant they name, each of the fifteen operations
    -- that the client rewrites is, on a model that belongs to tenants, held to the client's tenant: the
    -- rows that it selects are asked to be the tenant's, and the rows that it inserts are made so. Of
    -- createManyAndReturn and updateManyAndReturn nothing is said.
    pub rewrite-IsScoped :
        (op : Operation) (args : Args)
        → is_rewritten op ≡ true
        → IsScoped op (rewrite tenant_id model op args)
    unfolding rewrite
    rewrite-IsScoped find_many args own_case = filtered-PinsWhere args
    rewrite-IsScoped find_first args own_case = filtered-PinsWhere args
    rewrite-IsScoped find_unique args own_case = unique-PinsWhere args
    rewrite-IsScoped create args own_case = created_one-PinsData args
    rewrite-IsScoped create_many args own_case = created_many-PinsRows args
    rewrite-IsScoped update args own_case = targeted-PinsWhere args
    rewrite-IsScoped update_many args own_case = targeted-PinsWhere args
    rewrite-IsScoped delete args own_case = targeted-PinsWhere args
    rewrite-IsScoped delete_many args own_case = targeted-PinsWhere args
    rewrite-IsScoped count args own_case = filtered-PinsWhere args
    rewrite-IsScoped aggregate args own_case = filtered-PinsWhere args
    rewrite-IsScoped group_by args own_case = filtered-PinsWhere args
    rewrite-IsScoped upsert args own_case = upserted-IsScoped args
    rewrite-IsScoped find_unique_or_throw args own_case = unique-PinsWhere args
    rewrite-IsScoped find_first_or_throw args own_case = filtered-PinsWhere args
    rewrite-IsScoped create_many_and_return args own_case = cc
    rewrite-IsScoped update_many_and_return args own_case = cc
