-- ===== src/Orders/Safety/Service.antt =====
-- The histories of the orders, by the orders service and by the other code that writes them, with the
-- rest of the program changing the other tables in between, and double bookings.
use Prim.Native.String.{String}
use wash_flow.Prelude.{
  ℕ, ◌≡◌, sym, subst, inl, inr, Option, some, List, arith, Result, ok, Result-cases,
}
use wash_flow.Database.{Db, Order, OrderStatus}
use wash_flow.Common.Zones.{Zones}
use wash_flow.Idempotency.{request_identity, order_v1}
use wash_flow.Orders.Transaction.{DbError, Outcome, returned, threw, run_reservation_transaction}
use wash_flow.Orders.Transaction.Laws.{
  run_reservation_transaction_cases, run_reservation_transaction_total,
}
use wash_flow.Orders.Events.{Event, Done, dispatch_after}
use wash_flow.Orders.Create.{
  CreateOrderDto, create_tx, create, request_path, payload_text, created_events,
}
use wash_flow.Orders.Changes.{
  RescheduleOrderDto, reschedule_tx, update_status_tx, restore_tx, soft_delete, reschedule,
  update_status, restore,
}
use wash_flow.Orders.Maintenance.{
  handle_confirmation_timeout, delete_old_orders, repoint_vehicle, repoint_client,
}
use wash_flow.Orders.Safety.{IsSafe}
use wash_flow.Orders.Safety.Maintenance.{
  handle_confirmation_timeout-IsSafe, delete_old_orders-IsSafe, repoint_vehicle-IsSafe,
  repoint_client-IsSafe,
}
use wash_flow.Orders.Safety.Create.{IsFresh, create_tx-IsSafe}
use wash_flow.Orders.Safety.Changes.{update_status_tx-IsSafe, soft_delete-IsSafe}
use wash_flow.Orders.Safety.Moves.{reschedule_tx-IsSafe}
use wash_flow.Orders.Safety.Restore.{restore_tx-IsSafe}

-- A call whose body keeps the orders safe leaves them safe, however often it is tried.
dispatch-IsSafe :
    {A B : Type 0} (engine : ℕ → Option DbError) (reserve : Db → Result (A × Db)) (result : A → B)
    (events : A → List Event) (db : Db) (done : Done B)
    → IsSafe db.orders
    → ((a : A) (db' : Db) → reserve db ≡ ok (a, db') → IsSafe db'.orders)
    → dispatch_after result events (run_reservation_transaction engine reserve db) ≡ some done
    → IsSafe done.db.orders
unfolding dispatch_after
dispatch-IsSafe {A} engine reserve result events db done s keep h =
    let ((outcome, db'), ran) = run_reservation_transaction_total engine reserve db in
    let safe : IsSafe db'.orders =
      run_reservation_transaction_cases engine reserve (λ (r : Outcome A × Db). IsSafe r.1.orders)
        db keep (λ _. s) (outcome, db') ran in
    same outcome db' ran safe
  where
    same :
        (outcome : Outcome A) (db' : Db)
        → run_reservation_transaction engine reserve db ≡ some (outcome, db')
        → IsSafe db'.orders
        → IsSafe done.db.orders
    same (returned a) db' ran safe =
        let e : db' ≡ done.db = ground arith in subst (λ (d : Db). IsSafe d.orders) e safe
    same (threw t) db' ran safe =
        let e : db' ≡ done.db = ground arith in subst (λ (d : Db). IsSafe d.orders) e safe

-- One call of the service, at any time, under any verdicts of the database.
pub data Step (z : Zones) (digest : String → String) (dto_text : CreateOrderDto → String)
    : Db → Db → Type 0 where
  creates :
      {db : Db} (engine : ℕ → Option DbError) (new_id tenant_id : ℕ) (dto : CreateOrderDto)
      (user_id : Option ℕ) (key : Option String) (user_branch_id : Option ℕ)
      (anonymous : Option String) (now : ℕ) (done : Done Order)
      → IsFresh new_id db.orders
      → create z digest dto_text engine new_id tenant_id dto user_id key user_branch_id anonymous
          now db
        ≡ ok (some done)
      → Step z digest dto_text db done.db
  reschedules :
      {db : Db} (engine : ℕ → Option DbError) (tenant_id id : ℕ) (dto : RescheduleOrderDto)
      (user_id : ℕ) (branch_id : Option ℕ) (now : ℕ) (done : Done Order)
      → reschedule engine z tenant_id id dto user_id branch_id now db ≡ some done
      → Step z digest dto_text db done.db
  updates_status :
      {db : Db} (engine : ℕ → Option DbError) (tenant_id id : ℕ) (status : OrderStatus)
      (reason : Option String) (user_id : ℕ) (branch_id : Option ℕ) (done : Done Order)
      → update_status engine tenant_id id status reason user_id branch_id db ≡ some done
      → Step z digest dto_text db done.db
  deletes :
      {db db' : Db} (tenant_id id : ℕ) (branch_id : Option ℕ) (now : ℕ) (o : Order)
      → soft_delete tenant_id id branch_id now db ≡ ok (o, db')
      → Step z digest dto_text db db'
  restores :
      {db : Db} (engine : ℕ → Option DbError) (tenant_id id : ℕ) (branch_id : Option ℕ)
      (done : Done Order)
      → restore engine z tenant_id id branch_id db ≡ some done
      → Step z digest dto_text db done.db
  times_out :
      {db : Db} (tenant_id id : ℕ)
      → Step z digest dto_text db (handle_confirmation_timeout tenant_id id db)
  cleans_up : {db : Db} (cutoff : ℕ) → Step z digest dto_text db (delete_old_orders cutoff db)
  merges_vehicles :
      {db : Db} (source target : ℕ) → Step z digest dto_text db (repoint_vehicle source target db)
  merges_clients :
      {db : Db} (source target : ℕ) → Step z digest dto_text db (repoint_client source target db)
  -- A write of the other tables.
  elsewhere : {db db' : Db} → db'.orders ≡ db.orders → Step z digest dto_text db db'

pub data Reach (z : Zones) (digest : String → String) (dto_text : CreateOrderDto → String) (db : Db)
    : Db → Type 0 where
  here : Reach z digest dto_text db db
  next :
      {d d' : Db}
      → Reach z digest dto_text db d
      → Step z digest dto_text d d'
      → Reach z digest dto_text db d'

module _ (z : Zones) (digest : String → String) (dto_text : CreateOrderDto → String) where
  create-IsSafe :
      (db : Db) (engine : ℕ → Option DbError) (new_id tenant_id : ℕ) (dto : CreateOrderDto)
      (user_id : Option ℕ) (key : Option String) (user_branch_id : Option ℕ)
      (anonymous : Option String) (now : ℕ) (done : Done Order)
      → IsFresh new_id db.orders
      → create z digest dto_text engine new_id tenant_id dto user_id key user_branch_id anonymous
          now db
        ≡ ok (some done)
      → IsSafe db.orders
      → IsSafe done.db.orders
  unfolding create
  create-IsSafe db engine new_id tenant_id dto user_id key user_branch_id anonymous now done fresh h
        s =
      let identity_of =
        request_identity digest tenant_id key "POST" (request_path anonymous) order_v1 user_id
          (payload_text dto_text anonymous dto) in
      elim (Result-cases identity_of) [
        | inl (identity, e) ↦
            dispatch-IsSafe engine
              (create_tx z new_id tenant_id dto user_id user_branch_id now identity) (λ c. c.order)
              created_events db done s
              (λ c db' e'.
                create_tx-IsSafe z new_id tenant_id dto user_id user_branch_id now identity db db' c
                  s fresh e')
              (ground arith)
        | inr (e, f) ↦ absurd (ground arith)
      ]

  Step-IsSafe : {db db' : Db} → Step z digest dto_text db db' → IsSafe db.orders → IsSafe db'.orders
  unfolding reschedule update_status restore
  Step-IsSafe {db}
        (creates engine new_id tenant_id dto user_id key branch_id anonymous now done fresh h) s =
      create-IsSafe db engine new_id tenant_id dto user_id key branch_id anonymous now done fresh h
        s
  Step-IsSafe {db} (reschedules engine tenant_id id dto user_id branch_id now done h) s =
      dispatch-IsSafe engine (reschedule_tx z tenant_id id now dto branch_id) _ _ db done s
        (λ c db' e. reschedule_tx-IsSafe z tenant_id id now dto branch_id db db' c s e) h
  Step-IsSafe {db} (updates_status engine tenant_id id status reason user_id branch_id done h) s =
      dispatch-IsSafe engine (update_status_tx tenant_id id status reason branch_id) _ _ db done s
        (λ c db' e. update_status_tx-IsSafe tenant_id id status reason branch_id db db' c s e) h
  Step-IsSafe {db} {db'} (deletes tenant_id id branch_id now o h) s =
      soft_delete-IsSafe tenant_id id branch_id now db db' o s h
  Step-IsSafe {db} (restores engine tenant_id id branch_id done h) s =
      dispatch-IsSafe engine (restore_tx z tenant_id id branch_id) _ _ db done s
        (λ c db' e. restore_tx-IsSafe z tenant_id id branch_id db db' c s e) h
  Step-IsSafe {db} (times_out tenant_id id) s = handle_confirmation_timeout-IsSafe tenant_id id db s
  Step-IsSafe {db} (cleans_up cutoff) s = delete_old_orders-IsSafe cutoff db s
  Step-IsSafe {db} (merges_vehicles source target) s = repoint_vehicle-IsSafe source target db s
  Step-IsSafe {db} (merges_clients source target) s = repoint_client-IsSafe source target db s
  Step-IsSafe (elsewhere same) s = subst IsSafe (sym same) s

  -- From orders with no double booking, no history of creations with fresh identifiers, of
  -- reschedulings, status changes, deletions and restorations, whatever conflicts the database
  -- reports, of timeouts of confirmations, cleanups and merges of clients reaches one: two live orders of a tenant that hold the same work post, or the same
  -- employee, never overlap in time.
  pub Reach-IsSafe :
      {db db' : Db} → Reach z digest dto_text db db' → IsSafe db.orders → IsSafe db'.orders
  Reach-IsSafe here s = s
  Reach-IsSafe (next r st) s = Step-IsSafe st (Reach-IsSafe r s)
