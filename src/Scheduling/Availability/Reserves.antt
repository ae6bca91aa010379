-- ===== src/Scheduling/Availability/Reserves.antt =====
-- What an available slot promises of the reservation that `reserveResources` makes.
use mathlib.Core.List.Memᴰ
use mathlib.Core.List.{Memᴰ}
use wash_flow.Prelude.{
  ℕ, ◌≡◌, ◌+◌, ◌*◌, ◌≤◌, ◌<◌, zero, suc, refl, true, some, List, [], ◌∷◌, ◌&&◌, ◌==◌, arith, ok,
  All, All-append, contains, length, is_none, find?_narrow, Bool-cases, inl, inr, ◌⊎◌, subst, sym,
  find?_passes, get_or, not, ◌||◌,
}
use wash_flow.Database.{Db, Branch, find_active_branch}
use wash_flow.Common.Zones.{Zones, minute_ms}
use wash_flow.Common.BookingSettings.{resolve_booking_settings}
use wash_flow.Common.BranchDay.{booking_day_restrictions}
use wash_flow.Orders.Employees.{Reservation}
use wash_flow.Orders.Resources.{Resources, given, or_undefined, reserve_resources}
use wash_flow.Orders.Resources.Success.{reserve_resources-succeeds}
use wash_flow.Scheduling.Queries.{CheckAvailabilityParams, work_post_ids, find_branch}
use wash_flow.Scheduling.Availability.{
  TimeSlot, Day, capped_slots, slots_at, slots_from, day_slots, slice, is_post_free, day_of,
  check_availability,
}
use wash_flow.Scheduling.Availability.Posts.{
  reservation_from, is_post_free-reserves, work_post_ids-usable,
}
use wash_flow.Scheduling.Availability.Workers.{effective_capacity-reserves, IsLeft}

contains-slice :
    (n : ℕ) (xs : List ℕ) (i : ℕ) → contains (slice n xs) i ≡ true → (0 < n) × (0 < length xs)
contains-slice zero xs i h = cc
contains-slice (suc n) [] i h = cc
contains-slice (suc n) (x ∷ xs) i h = (omega arith, omega arith)

-- The reservation of a slot with its buffer, in terms of the slot alone.
abbrev pub reservation_of_slot : CheckAvailabilityParams → Day → TimeSlot → Reservation
reservation_of_slot params d s = record {
  tenant_id = params.tenant_id;
  branch_id = params.branch_id;
  scheduled_start = s.start;
  scheduled_end = s.end;
  buffer_minutes = d.buffer_minutes;
  exclude_order_id = params.exclude_order_id;
}

-- `reserveResources` succeeds at the slot, with the slot's post.
abbrev pub CanReserve : Zones → Db → CheckAvailabilityParams → Day → TimeSlot → Type 0
CanReserve z db params d s =
    (r : Resources) × (reserve_resources z db (reservation_of_slot params d s)
        (given s.work_post_id) (or_undefined params.assigned_employee_id)
      ≡ ok r)
    × (r.work_post_id ≡ some s.work_post_id)

-- The slot and the buffer around it lie within the day's hours.
abbrev pub IsBufferedInside : Day → TimeSlot → Type 0
IsBufferedInside d s =
    (d.start + d.buffer_minutes * minute_ms ≤ s.start)
    × (s.end + d.buffer_minutes * minute_ms ≤ d.end)

abbrev Promises : Zones → Db → CheckAvailabilityParams → Day → TimeSlot → Type 0
Promises z db params d s = s.available ≡ true → IsBufferedInside d s → CanReserve z db params d s

module _ (z : Zones) (db : Db) (params : CheckAvailabilityParams) (d : Day) (branch : Branch)
    (active : find_active_branch params.tenant_id params.branch_id db.branches ≡ some branch)
    (zone : d.timezone ≡ get_or branch.timezone "UTC") where
  slot_promises :
      (cursor id posts : ℕ)
      → contains (work_post_ids db params) id ≡ true
      → is_post_free z db params d cursor id ≡ true
      → 0 < posts
      → IsLeft z db params d cursor params.assigned_employee_id posts
      → (d.start + d.buffer_minutes * minute_ms ≤ cursor)
      → (cursor + d.step + d.buffer_minutes * minute_ms ≤ d.end)
      → (r : Resources) × (reserve_resources z db
            (reservation_from params d cursor)
            (given id)
            (or_undefined params.assigned_employee_id)
          ≡ ok r)
        × (r.work_post_id ≡ some id)
  slot_promises cursor id posts offered free any_post left opens closes =
      let (employee, assigned) =
        effective_capacity-reserves z db params d cursor branch active zone
          params.assigned_employee_id posts (omega arith, omega arith) any_post left in
      (
        record { work_post_id = some id; assigned_employee_id = employee },
        reserve_resources-succeeds z db (reservation_from params d cursor) branch id
            params.assigned_employee_id employee active
            (work_post_ids-usable z db params d cursor id offered)
            (is_post_free-reserves z db params d cursor id (opens, closes) offered free) assigned,
        refl,
      )

  capped_slots-Promises :
      (cursor i capacity : ℕ) (available ids : List ℕ)
      → (0 < capacity → IsLeft z db params d cursor params.assigned_employee_id (length available))
      → ((id : ℕ) → contains ids id ≡ true → contains (work_post_ids db params) id ≡ true)
      → All
          (Promises z db params d)
          (capped_slots z db params d cursor (slice capacity available) i ids)
  capped_slots-Promises cursor i capacity available [] left offered = tt
  capped_slots-Promises cursor i capacity available (id ∷ ids) left offered = (
    λ is_available (opens, closes).
        let (some_capacity, any_post) = contains-slice capacity available i (ground arith) in
        slot_promises cursor id (length available) (offered id (ground arith)) (ground arith)
          any_post (left some_capacity) opens closes,
    capped_slots-Promises cursor (i + 1) capacity available ids left
        (λ other there. offered other (ground arith)),
  )

  slots_at-Promises : (cursor : ℕ) → All (Promises z db params d) (slots_at z db params d cursor)
  unfolding slots_at
  slots_at-Promises cursor =
      capped_slots-Promises cursor 0 _ _ (work_post_ids db params) (λ left. left)
        (λ id there. there)

  slots_from-Promises :
      (cursors : List ℕ) → All (Promises z db params d) (slots_from z db params d cursors)
  unfolding slots_from
  slots_from-Promises [] = tt
  slots_from-Promises (cursor ∷ cursors) =
      All-append (Promises z db params d) (slots_at z db params d cursor)
        (slots_from z db params d cursors) (slots_at-Promises cursor) (slots_from-Promises cursors)

-- What holds of all holds of one of them.
All-Mem {ℓ κ} : {A : Type ℓ} (P : A → Type κ) (xs : List A) (x : A) → All P xs → Memᴰ x xs → P x
All-Mem P [] x a m = absurd (Memᴰ.not-nil m)
All-Mem P (y ∷ ys) x a m = elim (Memᴰ.cases_cons m) [
  | inl here ↦ subst P (sym here) a.0
  | inr later ↦ All-Mem P ys x a.1 later
]

find_active_branch-found :
    (db : Db) (tenant_id id : ℕ) (branch : Branch)
    → find_branch db tenant_id id ≡ some branch
    → branch.is_active ≡ true
    → find_active_branch tenant_id id db.branches ≡ some branch
unfolding find_branch find_active_branch
find_active_branch-found db tenant_id id branch found active =
    let passes =
      find?_passes (λ b. b.id == id && (b.tenant_id == tenant_id && is_none b.deleted_at))
        db.branches branch found in
    find?_narrow (λ b. b.id == id && (b.tenant_id == tenant_id && is_none b.deleted_at))
      (λ b. b.id == id && (b.tenant_id == tenant_id && (b.is_active && is_none b.deleted_at)))
      db.branches branch found (ground arith) (λ b narrow. ground arith)

check_availability-cases :
    (z : Zones) (params : CheckAvailabilityParams) (now : ℕ) (db : Db) (branch : Branch)
    (slots : List TimeSlot)
    → find_branch db params.tenant_id params.branch_id ≡ some branch
    → check_availability z params now db ≡ ok slots
    → (slots ≡ []) ⊎ (slots ≡ day_slots z db params (day_of z db params branch))
unfolding check_availability
check_availability-cases z params now db branch slots found h =
    let settings =
      resolve_booking_settings db.booking_settings params.tenant_id (some params.branch_id) in
    let restrictions =
      booking_day_restrictions z params.day (get_or branch.timezone "UTC") settings.working_days
        settings.max_advance_booking_days now in
    elim (Bool-cases (not restrictions.is_working_day || not restrictions.is_within_advance)) [
      | inl closed ↦ inl (ground arith)
      | inr opened ↦ elim (Bool-cases ((day_of z db params branch).step == 0)) [
        | inl nothing ↦ inl (ground arith)
        | inr steps ↦ inr (ground arith)
      ]
    ]

timezone_of_day :
    (z : Zones) (db : Db) (params : CheckAvailabilityParams) (branch : Branch)
    → (day_of z db params branch).timezone ≡ get_or branch.timezone "UTC"
unfolding day_of
timezone_of_day z db params branch = refl

day_slots-Promises :
    (z : Zones) (db : Db) (params : CheckAvailabilityParams) (branch : Branch)
    → find_active_branch params.tenant_id params.branch_id db.branches ≡ some branch
    → All
        (Promises z db params (day_of z db params branch))
        (day_slots z db params (day_of z db params branch))
unfolding day_slots
day_slots-Promises z db params branch active =
    slots_from-Promises z db params (day_of z db params branch) branch active
      (timezone_of_day z db params branch) _

-- An available slot of an active branch, with its buffer within the day's hours, can be booked:
-- as long as the rows stay the same, reserveResources at the slot's interval, with its work post and
-- the employee asked for, succeeds and reserves that work post.
pub check_availability-reserve_resources :
    (z : Zones) (params : CheckAvailabilityParams) (now : ℕ) (db : Db) (branch : Branch)
    (slots : List TimeSlot) (s : TimeSlot)
    → find_branch db params.tenant_id params.branch_id ≡ some branch
    → branch.is_active ≡ true
    → check_availability z params now db ≡ ok slots
    → Memᴰ s slots
    → s.available ≡ true
    → IsBufferedInside (day_of z db params branch) s
    → CanReserve z db params (day_of z db params branch) s
check_availability-reserve_resources z params now db branch slots s found active h m =
    elim (check_availability-cases z params now db branch slots found h) [
      | inl nothing ↦ absurd (Memᴰ.not-nil (subst (λ l. Memᴰ s l) nothing m))
      | inr full ↦
          All-Mem (Promises z db params (day_of z db params branch))
            (day_slots z db params (day_of z db params branch)) s
            (day_slots-Promises z db params branch
              (find_active_branch-found db params.tenant_id params.branch_id branch found active))
            (subst (λ l. Memᴰ s l) full m)
    ]
