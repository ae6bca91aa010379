-- ===== src/TenantPrisma/Tests.antt =====
-- A caller of one tenant who asks for an order of another, and for deleted rows.
use wash_flow.Prelude.{◌≡◌, refl, true, none, some, [], ◌∷◌}
use wash_flow.TenantPrisma.{
  boolean, uuid, no_object, Args, find_unique, upsert, update_many_and_return, should_bypass_tenant,
  rewrite, should_soft_delete_filter,
}
use wash_flow.TenantPrisma.Laws.{IsScoped, rewrite-IsScoped}
use wash_flow.TenantPrisma.Deleted.{AsksFor, rewrite-AsksFor}

abbrev foreign_order : Args
foreign_order = record {
  where_clause = some (("id", uuid 7) ∷ ("tenantId", uuid 2) ∷ []);
  data_of = none;
  rows_of = no_object;
  create_of = some (("tenantId", uuid 2) ∷ []);
}

abbrev asked_for_all : Args
asked_for_all = record foreign_order {
  where_clause = some (("id", uuid 7) ∷ ("_includeDeleted", boolean true) ∷ []);
}

rewrites_flag :
    rewrite 1 "Order" find_unique asked_for_all
    ≡ record asked_for_all { where_clause = some (("tenantId", uuid 1) ∷ ("id", uuid 7) ∷ []) }
unfolding rewrite
rewrites_flag = refl

rewrite-IsScoped_example : IsScoped 1 "Order" upsert (rewrite 1 "Order" upsert foreign_order)
unfolding should_bypass_tenant
rewrite-IsScoped_example = rewrite-IsScoped 1 "Order" refl upsert foreign_order refl

rewrite-AsksFor_example :
    AsksFor 1 "Order"
      (("id", uuid 7) ∷ ("_includeDeleted", boolean true) ∷ [])
      (rewrite 1 "Order" find_unique asked_for_all)
unfolding should_bypass_tenant should_soft_delete_filter
rewrite-AsksFor_example = rewrite-AsksFor 1 "Order" refl refl asked_for_all find_unique refl

-- The client has no case for this operation.
passes_on : rewrite 1 "Order" update_many_and_return foreign_order ≡ foreign_order
unfolding rewrite
passes_on = refl
