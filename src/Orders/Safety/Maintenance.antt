-- ===== src/Orders/Safety/Maintenance.antt =====
-- The writes of orders outside the orders service, and double bookings.
use wash_flow.Prelude.{
  ℕ, Bool, ◌≡◌, refl, true, Option, List, [], ◌∷◌, All, All-intro, Bool-cases, inl, inr, filter,
  arith, update_where, ◌==◌, not,
}
use wash_flow.Database.{Db, Order}
use wash_flow.Occupancy.{work_post, employee}
use wash_flow.Occupancy.Apart.{Apart, Fits}
use wash_flow.Occupancy.Updates.{Shrinks, Apart-shrink}
use wash_flow.Orders.Maintenance.{
  is_waiting, timed_out, handle_confirmation_timeout, deleted_before, delete_old_orders,
  repoint_vehicle, repoint_client,
}
use wash_flow.Orders.Safety.{IsSafe}

All-filter {ℓ κ} :
    {A : Type ℓ} (P : A → Type κ) (p : A → Bool) (xs : List A) → All P xs → All P (filter p xs)
All-filter P p [] h = tt
All-filter P p (x ∷ xs) h = elim (Bool-cases (p x)) [
  | inl keep ↦ rw keep (h.0, All-filter P p xs h.1)
  | inr drop ↦ rw drop (All-filter P p xs h.1)
]

Apart-filter :
    (key : Order → Option ℕ) (p : Order → Bool) (os : List Order)
    → Apart key os
    → Apart key (filter p os)
Apart-filter key p [] a = tt
Apart-filter key p (o ∷ os) a = elim (Bool-cases (p o)) [
  | inl keep ↦ rw keep (All-filter (Fits key o) p os a.0, Apart-filter key p os a.1)
  | inr drop ↦ rw drop (Apart-filter key p os a.1)
]

-- A change that moves no order and revives none keeps the orders safe.
Shrinks-IsSafe :
    (p : Order → Bool) (f : Order → Order) (os : List Order)
    → ((o : Order) → Shrinks work_post f o)
    → ((o : Order) → Shrinks employee f o)
    → IsSafe os
    → IsSafe (update_where p f os)
Shrinks-IsSafe p f os posts employees s = record {
  posts =
      Apart-shrink work_post p f os
        (All-intro (λ q. p q ≡ true → Shrinks work_post f q) os (λ o hit. posts o)) s.posts;
  employees =
      Apart-shrink employee p f os
        (All-intro (λ q. p q ≡ true → Shrinks employee f q) os (λ o hit. employees o)) s.employees;
}

pub handle_confirmation_timeout-IsSafe :
    (tenant_id id : ℕ) (db : Db)
    → IsSafe db.orders
    → IsSafe (handle_confirmation_timeout tenant_id id db).orders
unfolding handle_confirmation_timeout
handle_confirmation_timeout-IsSafe tenant_id id db s =
    Shrinks-IsSafe (is_waiting tenant_id id) timed_out db.orders
      (λ o. ended work_post (λ q. refl) o) (λ o. ended employee (λ q. refl) o) s
  where
    ended :
        (key : Order → Option ℕ)
        → ((o : Order) → key (timed_out o) ≡ key o)
        → (o : Order) → Shrinks key timed_out o
    ended key keeps o = record {
      same_id = refl;
      same_tenant = refl;
      same_key = keeps o;
      same_start = refl;
      same_end = refl;
      no_revival = λ live. ground arith;
    }

pub delete_old_orders-IsSafe :
    (cutoff : ℕ) (db : Db) → IsSafe db.orders → IsSafe (delete_old_orders cutoff db).orders
unfolding delete_old_orders
delete_old_orders-IsSafe cutoff db s = record {
  posts = Apart-filter work_post (λ o. not (deleted_before cutoff o.deleted_at)) db.orders s.posts;
  employees =
      Apart-filter employee (λ o. not (deleted_before cutoff o.deleted_at)) db.orders s.employees;
}

pub repoint_vehicle-IsSafe :
    (source target : ℕ) (db : Db)
    → IsSafe db.orders
    → IsSafe (repoint_vehicle source target db).orders
unfolding repoint_vehicle
repoint_vehicle-IsSafe source target db s =
    Shrinks-IsSafe (λ o. o.vehicle_id == source) (λ o. record o { vehicle_id = target }) db.orders
      (λ o. repointed work_post (λ q. refl) o) (λ o. repointed employee (λ q. refl) o) s
  where
    repointed :
        (key : Order → Option ℕ)
        → ((q : Order) → key (record q { vehicle_id = target }) ≡ key q)
        → (q : Order) → Shrinks key (λ o. record o { vehicle_id = target }) q
    repointed key keeps q = record {
      same_id = refl;
      same_tenant = refl;
      same_key = keeps q;
      same_start = refl;
      same_end = refl;
      no_revival = λ live. live;
    }

pub repoint_client-IsSafe :
    (source target : ℕ) (db : Db)
    → IsSafe db.orders
    → IsSafe (repoint_client source target db).orders
unfolding repoint_client
repoint_client-IsSafe source target db s =
    Shrinks-IsSafe (λ o. o.client_id == source) (λ o. record o { client_id = target }) db.orders
      (λ o. repointed work_post (λ q. refl) o) (λ o. repointed employee (λ q. refl) o) s
  where
    repointed :
        (key : Order → Option ℕ)
        → ((q : Order) → key (record q { client_id = target }) ≡ key q)
        → (q : Order) → Shrinks key (λ o. record o { client_id = target }) q
    repointed key keeps q = record {
      same_id = refl;
      same_tenant = refl;
      same_key = keeps q;
      same_start = refl;
      same_end = refl;
      no_revival = λ live. live;
    }
