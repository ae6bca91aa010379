-- ===== src/Scheduling.antt =====
-- src/modules/scheduling: the reservation of a work post (scheduling.service.ts) over the queries of
-- scheduling.repository.ts. Row locks do not change rows, so in a transaction that runs alone they
-- are left out.
pub mod Queries
pub mod Availability
use wash_flow.Prelude.{
  ℕ, Bool, Option, none, List, length, filter, ltb, ◌==◌, Result, conflict, throw_if,
}
use wash_flow.Database.{Order}
use wash_flow.Occupancy.{busy, work_post, buffered_start, buffered_end}

pub record Buffered : Type 0 where
  pub buffered_start : ℕ
  pub buffered_end : ℕ

unfoldable pub apply_buffer_time : ℕ → ℕ → ℕ → Buffered
apply_buffer_time start end buffer_minutes = record {
  buffered_start = buffered_start start buffer_minutes;
  buffered_end = buffered_end end buffer_minutes;
}

unfoldable pub count_overlapping : List Order → ℕ → ℕ → ℕ → ℕ → Option ℕ → ℕ
count_overlapping orders tenant_id work_post_id start end exclude =
    length (filter (busy work_post tenant_id work_post_id start end exclude) orders)

unfoldable pub find_orders_in_range : List Order → ℕ → ℕ → ℕ → ℕ → List Order
find_orders_in_range orders tenant_id work_post_id start end =
    filter (busy work_post tenant_id work_post_id start end none) orders

pub record ReserveSlotParams : Type 0 where
  pub tenant_id : ℕ
  pub work_post_id : ℕ
  pub scheduled_start : ℕ
  pub scheduled_end : ℕ
  pub buffer_minutes : ℕ
  pub exclude_order_id : Option ℕ

unfoldable pub reserve_slot : List Order → ReserveSlotParams → Result (Unit {0})
unfolding count_overlapping
reserve_slot orders params =
    throw_if
      (ltb 0 (
        count_overlapping orders params.tenant_id params.work_post_id
          (buffered_start params.scheduled_start params.buffer_minutes)
          (buffered_end params.scheduled_end params.buffer_minutes) params.exclude_order_id))
      (conflict "The requested time slot overlaps with an existing booking")

unfoldable pub validate_no_overlap : List Order → ℕ → ℕ → ℕ → ℕ → ℕ → Bool
unfolding find_orders_in_range
validate_no_overlap orders tenant_id work_post_id start end buffer_minutes =
    length (
      find_orders_in_range orders tenant_id work_post_id (buffered_start start buffer_minutes)
        (buffered_end end buffer_minutes))
    == 0
