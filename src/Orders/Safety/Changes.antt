-- ===== src/Orders/Safety/Changes.antt =====
-- Changing the status of an order and deleting it, and double bookings.
use Prim.Native.String.{String}
use wash_flow.Prelude.{
  ℕ, ◌≡◌, refl, sym, subst, inl, inr, true, Option, some, List, arith, All, All-intro, All-map, ok,
  Option-cases, find?_passes, update_where, ◌==◌, ◌&&◌,
}
use wash_flow.Database.{Db, Order, OrderStatus, is_active_status}
use wash_flow.Occupancy.{work_post, employee, is_live}
use wash_flow.Occupancy.Apart.{Apart}
use wash_flow.Occupancy.Updates.{Apart-shrink, only_row}
use wash_flow.Orders.Status.{includes, valid_status_transitions}
use wash_flow.Orders.Changes.{
  is_row, in_scope, find_order, with_status, StatusChange, update_status_tx, soft_delete,
}
use wash_flow.Orders.Safety.{IsSafe}

-- No transition leads to an active status from one that is not.
transition-active :
    (s t : OrderStatus) → includes (valid_status_transitions s) t ≡ true → is_active_status s ≡ true
unfolding valid_status_transitions
transition-active s t h = ground arith

find_order-is_row :
    (db : Db) (tenant_id id : ℕ) (branch_id : Option ℕ) (o : Order)
    → find_order db tenant_id id branch_id ≡ some o
    → (o.id ≡ id) × (is_row tenant_id id o ≡ true)
unfolding find_order
find_order-is_row db tenant_id id branch_id o h =
    let passed = find?_passes (λ o. is_row tenant_id id o && in_scope branch_id o) db.orders o h in
    ground arith

module _ (key : Order → Option ℕ) where
  -- Only the rows with the found order's identifier are changed, and those are that order.
  status-Apart :
      (os : List Order) (tenant_id id : ℕ) (current : Order) (status : OrderStatus)
      (reason : Option String)
      → current.id ≡ id
      → ((o : Order) → key (with_status status reason o) ≡ key o)
      → is_live current ≡ true
      → All (λ q. q.id ≡ current.id → q ≡ current) os
      → Apart key os
      → Apart key (update_where (is_row tenant_id id) (with_status status reason) os)
  status-Apart os tenant_id id current status reason same keeps live only a =
      Apart-shrink key (is_row tenant_id id) (with_status status reason) os
        (All-map (λ q. q.id ≡ current.id → q ≡ current) _ os
          (λ q h hit. record {
            same_id = refl;
            same_tenant = refl;
            same_key = keeps q;
            same_start = refl;
            same_end = refl;
            no_revival = λ _. subst (λ o. is_live o ≡ true) (sym (h (ground arith))) live;
          })
          only)
        a

-- The transaction of `updateStatus` keeps the orders free of double bookings.
pub update_status_tx-IsSafe :
    (tenant_id id : ℕ) (status : OrderStatus) (reason : Option String) (branch_id : Option ℕ)
    (db db' : Db) (c : StatusChange)
    → IsSafe db.orders
    → update_status_tx tenant_id id status reason branch_id db ≡ ok (c, db')
    → IsSafe db'.orders
unfolding update_status_tx
update_status_tx-IsSafe tenant_id id status reason branch_id db db' c s h =
    elim (Option-cases (find_order db tenant_id id branch_id)) [
      | inl missing ↦ absurd (ground arith)
      | inr (o, found) ↦
          let (same, row) = find_order-is_row db tenant_id id branch_id o found in
          let live : is_live o ≡ true = ground (arith, transition-active o.status status) in
          subst IsSafe (ground arith) (record {
            posts =
                status-Apart work_post db.orders tenant_id id o status reason same (λ _. refl) live
                  (only_row work_post _ db.orders o (unfold find_order in found) s.posts) s.posts;
            employees =
                status-Apart employee db.orders tenant_id id o status reason same (λ _. refl) live
                  (only_row employee _ db.orders o (unfold find_order in found) s.employees)
                  s.employees;
          })
    ]

-- Marking an order as deleted keeps the orders free of double bookings.
pub soft_delete-IsSafe :
    (tenant_id id : ℕ) (branch_id : Option ℕ) (now : ℕ) (db db' : Db) (o : Order)
    → IsSafe db.orders
    → soft_delete tenant_id id branch_id now db ≡ ok (o, db')
    → IsSafe db'.orders
unfolding soft_delete
soft_delete-IsSafe tenant_id id branch_id now db db' o s h = subst IsSafe (ground arith) (record {
  posts = deleted work_post (λ _. refl) s.posts;
  employees = deleted employee (λ _. refl) s.employees;
})
  where
    deleted :
        (key : Order → Option ℕ)
        → ((q : Order) → key (record q { deleted_at = some now }) ≡ key q)
        → Apart key db.orders
        → Apart key (
            update_where
              (λ q. q.id == id && q.tenant_id == tenant_id)
              (λ q. record q { deleted_at = some now })
              db.orders)
    deleted key keeps a =
        Apart-shrink key _ _ db.orders
          (All-intro _ db.orders (λ q hit. record {
            same_id = refl;
            same_tenant = refl;
            same_key = keeps q;
            same_start = refl;
            same_end = refl;
            no_revival = λ live. absurd (ground arith);
          }))
          a
