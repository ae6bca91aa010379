-- ===== src/Scheduling/Availability/Posts.antt =====
-- A slot whose work post is free, and the reservation of the post.
use wash_flow.Prelude.{
  ℕ, ◌≡◌, ◌+◌, ◌*◌, ◌≤◌, true, false, Bool, List, subst, Option, none, some, arith, ok, any,
  any_witness, any-filter, any-filter_fails, any-length-filter, contains, contains-map, filter, sym,
  ◌∙◌, ◌&&◌, ◌==◌, ◌==?◌, is_none, ltb,
}
use wash_flow.Database.{Db, Order, is_active_status}
use wash_flow.Occupancy.{busy, work_post, buffered_start, buffered_end, not_excluded}
use wash_flow.Common.Zones.{Zones, minute_ms}
use wash_flow.Scheduling.{reserve_slot, count_overlapping}
use wash_flow.Orders.Employees.{Reservation}
use wash_flow.Orders.Resources.{reserve_post, is_usable_post}
use wash_flow.Scheduling.Queries.{
  CheckAvailabilityParams, work_post_ids, is_offered_post, is_among, find_orders_for_work_posts,
}
use wash_flow.Scheduling.Availability.{Day, conflicts, is_post_free}

-- The reservation of a slot.
abbrev pub reservation_from : CheckAvailabilityParams → Day → ℕ → Reservation
reservation_from params d cursor = record {
  tenant_id = params.tenant_id;
  branch_id = params.branch_id;
  scheduled_start = cursor;
  scheduled_end = cursor + d.step;
  buffer_minutes = d.buffer_minutes;
  exclude_order_id = params.exclude_order_id;
}

pub is_among-key :
    (key : Option ℕ) (id : ℕ) (ids : List ℕ)
    → (key ==? id) ≡ true
    → contains ids id ≡ true
    → is_among key ids ≡ true
is_among-key none id ids h there = ground arith
is_among-key (some a) id ids h there =
    let same : a ≡ id = ground arith in subst (λ i. contains ids i ≡ true) (sym same) there

module _ (z : Zones) (db : Db) (params : CheckAvailabilityParams) (d : Day) (cursor id : ℕ) where
  abbrev pub IsInside : Type 0
  IsInside =
      (d.start + d.buffer_minutes * minute_ms ≤ cursor)
      × (cursor + d.step + d.buffer_minutes * minute_ms ≤ d.end)

  abbrev res : Reservation
  res = reservation_from params d cursor

  abbrev fetched : Order → Bool
  fetched o =
      o.tenant_id == params.tenant_id
      && (is_none o.deleted_at
          && (not_excluded params.exclude_order_id o.id
              && (is_among o.work_post_id (work_post_ids db params)
                  && (is_active_status o.status
                      && (ltb o.scheduled_start d.end && ltb d.start o.scheduled_end)))))

  abbrev conflicting : Order → Bool
  conflicting o =
      o.work_post_id ==? id
      && conflicts (buffered_start cursor d.buffer_minutes)
          (buffered_end (cursor + d.step) d.buffer_minutes) o

  abbrev holding : Order → Bool
  holding o =
      busy work_post params.tenant_id id (buffered_start cursor d.buffer_minutes)
        (buffered_end (cursor + d.step) d.buffer_minutes) params.exclude_order_id o

  holding-fetched :
      IsInside
      → contains (work_post_ids db params) id ≡ true
      → (o : Order) → holding o ≡ true
      → (fetched o ≡ true) × (conflicting o ≡ true)
  unfolding busy
  holding-fetched (opens, closes) offered o h =
      let among = is_among-key o.work_post_id id (work_post_ids db params) (ground arith) offered in
      (ground arith, ground arith)

  pub is_post_free-reserves :
      IsInside
      → contains (work_post_ids db params) id ≡ true
      → is_post_free z db params d cursor id ≡ true
      → reserve_post db res id ≡ ok tt
  unfolding reserve_post reserve_slot count_overlapping is_post_free find_orders_for_work_posts
  is_post_free-reserves inside offered free =
      let no_conflict : any conflicting (filter fetched db.orders) ≡ false = ground arith in
      let nothing = any-length-filter holding db.orders (
        any-filter_fails fetched conflicting holding db.orders (holding-fetched inside offered)
          no_conflict) in
      ground arith

  pub work_post_ids-usable :
      contains (work_post_ids db params) id ≡ true
      → any (λ wp. wp.id == id && is_usable_post res wp) db.work_posts ≡ true
  unfolding work_post_ids
  work_post_ids-usable offered =
      let (wp, passes, one) =
        any_witness (λ wp. is_offered_post params wp && wp.id == id) db.work_posts
          (sym (any-filter (λ wp. wp.id == id) (is_offered_post params) db.work_posts)
            ∙ sym (contains-map (λ wp. wp.id) id (filter (is_offered_post params) db.work_posts))
            ∙ offered) in
      one (λ wp. wp.id == id && is_usable_post res wp) (ground arith)
