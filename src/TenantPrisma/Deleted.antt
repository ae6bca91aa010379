-- ===== src/TenantPrisma/Deleted.antt =====
-- Which reads of a tenant's client pass over deleted rows.
use Prim.Native.String.{String}
use text.Mathlib.Text.{◌==◌ as str_eq}
use wash_flow.Prelude.{
  ℕ, Bool-cases, inl, inr, if◌then◌else◌, ◌≡◌, refl, ◌∙◌, Bool, true, false, none, some, [], arith,
  get_or,
}
use wash_flow.TenantPrisma.{
  null, uuid, Object, Args, Operation, find_many, find_first, find_unique, create, create_many,
  update, update_many, delete, delete_many, count, aggregate, group_by, upsert,
  find_unique_or_throw, find_first_or_throw, create_many_and_return, update_many_and_return,
  should_soft_delete_filter, should_bypass_tenant, key_value, set_key, without_key, is_truthy,
  pinned, hide_deleted, filtered, unique, rewrite,
}
use wash_flow.TenantPrisma.Laws.{
  key_value-set_key, key_value-without, key_value-set_other, key_value-without_other,
}

module _ (tenant_id : ℕ) (model : String) where
  -- The reads, which pass over rows that are deleted.
  abbrev pub reads : Operation → Bool
  reads find_many = true
  reads find_first = true
  reads find_unique = true
  reads count = true
  reads aggregate = true
  reads group_by = true
  reads find_unique_or_throw = true
  reads find_first_or_throw = true
  reads _ = false

  -- What a read asks for once it is rewritten, beside the object that the caller gave: not the flag,
  -- as to deleted rows what the flag says, and otherwise what the caller asked.
  abbrev pub AsksFor : Object → Args → Type 0
  AsksFor object args =
      (o : Object) × (args.where_clause ≡ some o)
      × (key_value "_includeDeleted" o ≡ none)
      × (key_value "deletedAt" o ≡ (
          if is_truthy (key_value "_includeDeleted" object)
          then key_value "deletedAt" object
          else some null))
      × ((key : String)
          → str_eq "tenantId" key ≡ false
          → str_eq "_includeDeleted" key ≡ false
          → str_eq "deletedAt" key ≡ false
          → key_value key o ≡ key_value key object)

  module _ (own : should_bypass_tenant model ≡ false)
      (soft : should_soft_delete_filter model ≡ true) (args : Args) where
    abbrev given : Object
    given = get_or args.where_clause []

    pinned_flag :
        (o : Object)
        → key_value "_includeDeleted" (pinned tenant_id model o) ≡ key_value "_includeDeleted" o
    pinned_flag o =
        let kept = key_value-set_other "_includeDeleted" "tenantId" (uuid tenant_id) o refl in
        ground arith

    pinned_other :
        (key : String) (o : Object)
        → str_eq "tenantId" key ≡ false
        → key_value key (pinned tenant_id model o) ≡ key_value key o
    pinned_other key o apart =
        let kept = key_value-set_other key "tenantId" (uuid tenant_id) o apart in ground arith

    filtered-AsksFor : AsksFor given (filtered tenant_id model args)
    unfolding filtered hide_deleted
    filtered-AsksFor =
        let o = pinned tenant_id model given in
        let cleaned = without_key "_includeDeleted" o in
        let flag = pinned_flag given in
        elim (Bool-cases (is_truthy (key_value "_includeDeleted" given))) [
          | inl asked ↦ (
            cleaned,
            ground arith,
            key_value-without "_includeDeleted" o,
            key_value-without_other "deletedAt" "_includeDeleted" o refl
                ∙ pinned_other "deletedAt" given refl
                ∙ ground arith,
            λ key apart_tenant apart_flag apart_deleted.
                key_value-without_other key "_includeDeleted" o apart_flag
                ∙ pinned_other key given apart_tenant,
          )
          | inr unasked ↦ (
            set_key "deletedAt" null cleaned,
            ground arith,
            key_value-set_other "_includeDeleted" "deletedAt" null cleaned refl
                ∙ key_value-without "_includeDeleted" o,
            key_value-set_key "deletedAt" null cleaned ∙ ground arith,
            λ key apart_tenant apart_flag apart_deleted.
                key_value-set_other key "deletedAt" null cleaned apart_deleted
                ∙ key_value-without_other key "_includeDeleted" o apart_flag
                ∙ pinned_other key given apart_tenant,
          )
        ]

    unique-AsksFor : AsksFor given (unique tenant_id model args)
    unfolding unique
    unique-AsksFor =
        let cleaned = without_key "_includeDeleted" given in
        let extra = pinned tenant_id model cleaned in
        let no_flag = pinned_flag cleaned ∙ key_value-without "_includeDeleted" given in
        elim (Bool-cases (is_truthy (key_value "_includeDeleted" given))) [
          | inl asked ↦ (
            extra,
            ground arith,
            no_flag,
            pinned_other "deletedAt" cleaned refl
                ∙ key_value-without_other "deletedAt" "_includeDeleted" given refl
                ∙ ground arith,
            λ key apart_tenant apart_flag apart_deleted.
                pinned_other key cleaned apart_tenant
                ∙ key_value-without_other key "_includeDeleted" given apart_flag,
          )
          | inr unasked ↦ (
            set_key "deletedAt" null extra,
            ground arith,
            key_value-set_other "_includeDeleted" "deletedAt" null extra refl ∙ no_flag,
            key_value-set_key "deletedAt" null extra ∙ ground arith,
            λ key apart_tenant apart_flag apart_deleted.
                key_value-set_other key "deletedAt" null extra apart_deleted
                ∙ pinned_other key cleaned apart_tenant
                ∙ key_value-without_other key "_includeDeleted" given apart_flag,
          )
        ]

    -- A read of a model that belongs to tenants and keeps its deleted rows never hands the flag on. It
    -- asks for rows that are not deleted unless the flag is set; then it asks as to deletion what the
    -- caller asked. Every key but the tenant's, the flag and the mark of deletion is the caller's.
    pub rewrite-AsksFor :
        (op : Operation) → reads op ≡ true → AsksFor given (rewrite tenant_id model op args)
    unfolding rewrite
    rewrite-AsksFor find_many read = filtered-AsksFor
    rewrite-AsksFor find_first read = filtered-AsksFor
    rewrite-AsksFor find_unique read = unique-AsksFor
    rewrite-AsksFor count read = filtered-AsksFor
    rewrite-AsksFor aggregate read = filtered-AsksFor
    rewrite-AsksFor group_by read = filtered-AsksFor
    rewrite-AsksFor find_unique_or_throw read = unique-AsksFor
    rewrite-AsksFor find_first_or_throw read = filtered-AsksFor
    rewrite-AsksFor create read = cc
    rewrite-AsksFor create_many read = cc
    rewrite-AsksFor update read = cc
    rewrite-AsksFor update_many read = cc
    rewrite-AsksFor delete read = cc
    rewrite-AsksFor delete_many read = cc
    rewrite-AsksFor upsert read = cc
    rewrite-AsksFor create_many_and_return read = cc
    rewrite-AsksFor update_many_and_return read = cc
