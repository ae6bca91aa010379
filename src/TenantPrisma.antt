-- ===== src/TenantPrisma.antt =====
-- src/prisma/tenant-prisma.service.ts: how `forTenant` rewrites the arguments of each operation of
-- Prisma before the query runs. An object is its keys with their values, a key once; a nested object
-- or any other value that the rewriting only passes on is its text.
pub mod Laws
pub mod Deleted
mod Tests
use Prim.Native.String.{String}
use text.Mathlib.Text.{◌==◌ as str_eq}
use wash_flow.Prelude.{
  ℕ, Bool, not, true, false, Option, none, some, List, [], ◌∷◌, map, ◌&&◌, ◌||◌, filter, get_or,
  if◌then◌else◌,
}

pub data Value : Type 0 where
  null undefined : Value
  boolean : Bool → Value
  string : String → Value
  uuid : ℕ → Value

abbrev pub Object : Type 0
Object = List (String × Value)

-- `args.data` of createMany.
pub data Rows : Type 0 where
  one : Object → Rows
  many : List Object → Rows
  no_object : Rows

-- The parts of `args` that are rewritten: `where`, the `data` of create, the `data` of createMany, and
-- the `create` of upsert.
pub record Args : Type 0 where
  pub where_clause : Option Object
  pub data_of : Option Object
  pub rows_of : Rows
  pub create_of : Option Object

-- The operations on a model that the client has: those with a case in `forTenant`, and the last two,
-- which it passes on as they are.
pub data Operation : Type 0 where
  find_many find_first find_unique create create_many update update_many delete delete_many count
        aggregate group_by upsert find_unique_or_throw find_first_or_throw create_many_and_return
        update_many_and_return :
      Operation

abbrev pub is_one_of : List String → String → Bool
is_one_of [] name = false
is_one_of (n ∷ ns) name = str_eq n name || is_one_of ns name

unfoldable pub should_soft_delete_filter : String → Bool
should_soft_delete_filter model =
    is_one_of
      ("User" ∷ "Client" ∷ "Order" ∷ "Vehicle" ∷ "Service" ∷ "Branch" ∷ "Role" ∷ "WorkPost"
        ∷ "EmployeeProfile" ∷ [])
      model

unfoldable pub should_bypass_tenant : String → Bool
should_bypass_tenant model =
    is_one_of ("Permission" ∷ "RolePermission" ∷ "IdempotencyKey" ∷ []) model

abbrev pub key_value : String → Object → Option Value
key_value key [] = none
key_value key ((k, v) ∷ rest) =
    let later = key_value key rest in if str_eq k key then some v else later

-- `{ ...object, key: value }`
abbrev pub set_key : String → Value → Object → Object
set_key key value object = (key, value) ∷ filter (λ (k, v). not (str_eq k key)) object

-- `const { key, ...rest } = object`
abbrev pub without_key : String → Object → Object
without_key key object = filter (λ (k, v). not (str_eq k key)) object

-- `!!value`
abbrev pub is_truthy : Option Value → Bool
is_truthy none = false
is_truthy (some null) = false
is_truthy (some undefined) = false
is_truthy (some (boolean b)) = b
is_truthy (some (string s)) = not (str_eq s "")
is_truthy (some (uuid n)) = true

module _ (tenant_id : ℕ) (model : String) where
  abbrev pub pinned : Object → Object
  pinned object =
      if should_bypass_tenant model then object else set_key "tenantId" (uuid tenant_id) object

  -- What the reads do with `_includeDeleted`.
  unfoldable pub hide_deleted : Object → Object
  unfolding should_soft_delete_filter
  hide_deleted object =
      let cleaned = without_key "_includeDeleted" object in
      if should_soft_delete_filter model
      then (if is_truthy (key_value "_includeDeleted" object)
          then cleaned
          else set_key "deletedAt" null cleaned)
      else object

  -- findMany, findFirst, count, aggregate, groupBy and findFirstOrThrow
  unfoldable pub filtered : Args → Args
  unfolding hide_deleted should_bypass_tenant
  filtered args = record args {
    where_clause =
        if should_bypass_tenant model && not (should_soft_delete_filter model)
        then args.where_clause
        else some (hide_deleted (pinned (get_or args.where_clause [])));
  }

  -- findUnique and findUniqueOrThrow
  unfoldable pub unique : Args → Args
  unfolding should_bypass_tenant should_soft_delete_filter
  unique args =
      let object = get_or args.where_clause [] in
      let extra = pinned (without_key "_includeDeleted" object) in
      record args {
        where_clause =
            if not (should_bypass_tenant model) || should_soft_delete_filter model
            then some (
                if should_soft_delete_filter model
                  && not (is_truthy (key_value "_includeDeleted" object))
                then set_key "deletedAt" null extra
                else extra)
            else args.where_clause;
      }

  -- update, updateMany, delete and deleteMany
  unfoldable pub targeted : Args → Args
  unfolding should_bypass_tenant
  targeted args = record args {
    where_clause =
        if should_bypass_tenant model
        then args.where_clause
        else some (pinned (get_or args.where_clause []));
  }

  abbrev pub owned : Option Object → Option Object
  owned none = none
  owned (some object) = some (pinned object)

  abbrev pub owned_all : Rows → Rows
  owned_all (one object) = one (pinned object)
  owned_all (many objects) = many (map pinned objects)
  owned_all no_object =
      if should_bypass_tenant model then no_object else one (("tenantId", uuid tenant_id) ∷ [])

  unfoldable pub created_one : Args → Args
  unfolding should_bypass_tenant
  created_one args = record args { data_of = owned args.data_of }

  unfoldable pub created_many : Args → Args
  unfolding should_bypass_tenant
  created_many args = record args { rows_of = owned_all args.rows_of }

  unfoldable pub upserted : Args → Args
  unfolding targeted should_bypass_tenant
  upserted args = record (targeted args) { create_of = owned args.create_of }

  -- The arguments that the query gets, which are the caller's where `forTenant` has no case.
  unfoldable pub rewrite : Operation → Args → Args
  unfolding filtered unique targeted created_one created_many upserted
  rewrite find_many args = filtered args
  rewrite find_first args = filtered args
  rewrite find_unique args = unique args
  rewrite create args = created_one args
  rewrite create_many args = created_many args
  rewrite update args = targeted args
  rewrite update_many args = targeted args
  rewrite delete args = targeted args
  rewrite delete_many args = targeted args
  rewrite count args = filtered args
  rewrite aggregate args = filtered args
  rewrite group_by args = filtered args
  rewrite upsert args = upserted args
  rewrite find_unique_or_throw args = unique args
  rewrite find_first_or_throw args = filtered args
  rewrite create_many_and_return args = args
  rewrite update_many_and_return args = args
