-- ===== src/Orders/Status/Laws.antt =====
-- The life of an order, by its statuses.
use Prim.Native.String.{String}
use wash_flow.Prelude.{
  none, refl, ap, ◌∙◌, List, ◌&&◌, find?_passes, find?-update_where_at, find?-update_where_ne,
  update_where, ℕ, ◌<◌, ◌≡◌, ◌≢◌, ◌⊎◌, true, not, Option, some, arith, ok,
}
use wash_flow.Database.{
  Db, Order, OrderStatus, booked, booked_pending_confirmation, in_progress, is_active_status,
}
use wash_flow.Orders.Status.{includes, valid_status_transitions}
use wash_flow.Orders.Changes.{
  find_order, is_terminal, is_row, in_scope, with_status, StatusChange, update_status_tx,
}

-- How far an order has come.
abbrev pub progress : OrderStatus → ℕ
progress booked_pending_confirmation = 0
progress booked = 1
progress in_progress = 2
progress _ = 3

transition_rises :
    (s t : OrderStatus) → includes (valid_status_transitions s) t ≡ true → progress s < progress t
unfolding valid_status_transitions
transition_rises s t h = ground arith

transition_active :
    (s t : OrderStatus) → includes (valid_status_transitions s) t ≡ true → is_active_status s ≡ true
unfolding valid_status_transitions
transition_active s t h = ground arith

-- A status that no transition leaves is one that frees the order's resources: the table of
-- transitions and the queries for overlapping orders agree on which orders are over.
is_terminal-is_active_status : (s : OrderStatus) → is_terminal s ≡ not (is_active_status s)
unfolding valid_status_transitions
is_terminal-is_active_status s = ground arith

-- The rows once a status is written.
abbrev rows_with : ℕ → ℕ → OrderStatus → Option String → Db → List Order
rows_with tenant_id id status reason db =
    update_where (is_row tenant_id id) (with_status status reason) db.orders

in_scope-with_status :
    (branch_id : Option ℕ) (status : OrderStatus) (reason : Option String) (o : Order)
    → in_scope branch_id (with_status status reason o) ≡ in_scope branch_id o
in_scope-with_status none status reason o = refl
in_scope-with_status (some id) status reason o = refl

found_updated :
    (tenant_id id : ℕ) (status : OrderStatus) (reason : Option String) (branch_id : Option ℕ)
    (db : Db) (o : Order)
    → find_order db tenant_id id branch_id ≡ some o
    → find_order
        (record db { orders = rows_with tenant_id id status reason db })
        tenant_id
        id
        branch_id
      ≡ some (with_status status reason o)
unfolding find_order
found_updated tenant_id id status reason branch_id db o found =
    let passes =
      find?_passes (λ x. is_row tenant_id id x && in_scope branch_id x) db.orders o found in
    find?-update_where_at (λ x. is_row tenant_id id x && in_scope branch_id x) (is_row tenant_id id)
      (with_status status reason) db.orders o
      (λ y. ap (λ b. is_row tenant_id id y && b) (in_scope-with_status branch_id status reason y))
      (ground arith) found

found_other :
    (tenant_id id other_tenant other : ℕ) (status : OrderStatus) (reason : Option String)
    (scope : Option ℕ) (db : Db)
    → (other_tenant ≢ tenant_id) ⊎ (other ≢ id)
    → find_order
        (record db { orders = rows_with tenant_id id status reason db })
        other_tenant
        other
        scope
      ≡ find_order db other_tenant other scope
unfolding find_order
found_other tenant_id id other_tenant other status reason scope db apart =
    find?-update_where_ne (λ x. is_row other_tenant other x && in_scope scope x)
      (is_row tenant_id id) (with_status status reason) db.orders
      (λ y at. (ground (arith, apart), ground (arith, apart)))

-- A change of status that goes through takes an order that is there, in scope and not over, to
-- exactly the status asked for, which is further along than its own: it is then found in the orders
-- with that status, and every order with another identifier or tenant is found as before.
pub update_status_tx-rises :
    (tenant_id id : ℕ) (status : OrderStatus) (reason : Option String) (branch_id : Option ℕ)
    (db db' : Db) (c : StatusChange)
    → update_status_tx tenant_id id status reason branch_id db ≡ ok (c, db')
    → (find_order db tenant_id id branch_id ≡ some c.order)
      × (is_active_status c.order.status ≡ true)
      × (c.updated.status ≡ status)
      × (progress c.order.status < progress c.updated.status)
      × (find_order db' tenant_id id branch_id ≡ some c.updated)
      × ((other_tenant other : ℕ) (scope : Option ℕ)
          → (other_tenant ≢ tenant_id) ⊎ (other ≢ id)
          → find_order db' other_tenant other scope ≡ find_order db other_tenant other scope)
unfolding update_status_tx find_order
update_status_tx-rises tenant_id id status reason branch_id db db' c h =
    let allowed : includes (valid_status_transitions c.order.status) status ≡ true = ground arith in
    let current : find_order db tenant_id id branch_id ≡ some c.order = ground arith in
    let updated : with_status status reason c.order ≡ c.updated = ground arith in
    let left : db' ≡ record db { orders = rows_with tenant_id id status reason db } =
      ground arith in
    let became : c.updated.status ≡ status = ground arith in
    let rises = transition_rises c.order.status status allowed in
    (
      current,
      transition_active c.order.status status allowed,
      became,
      rw became rises,
      ap (λ d. find_order d tenant_id id branch_id) left
          ∙ found_updated tenant_id id status reason branch_id db c.order current
          ∙ ap some updated,
      λ other_tenant other scope apart.
          ap (λ d. find_order d other_tenant other scope) left
          ∙ found_other tenant_id id other_tenant other status reason scope db apart,
    )
