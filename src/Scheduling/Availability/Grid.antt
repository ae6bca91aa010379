-- ===== src/Scheduling/Availability/Grid.antt =====
-- Where the slots of a day start.
use wash_flow.Prelude.{
  ℕ, ◌≡◌, ◌↔◌, zero, suc, ◌+◌, ◌*◌, ◌≤◌, ◌<◌, true, arith, contains, leb, inl, inr, Bool-cases,
  refl, Bool, List, [], ◌∷◌, any, any-append, ◌==◌, ◌&&◌, sym, ◌∙◌,
}
use native.Mathlib.Nat.{mul-le-mul_left}
use wash_flow.Database.{Db}
use wash_flow.Common.Zones.{Zones, minute_ms}
use wash_flow.Scheduling.Queries.{CheckAvailabilityParams, work_post_ids}
use wash_flow.Scheduling.Availability.{
  slot_starts, enough_rounds, TimeSlot, Day, capped_slots, slots_at, slots_from, day_slots,
}

-- `t` is a whole number of steps after the cursor and its slot ends by the end of the day.
abbrev pub IsOnGrid : ℕ → ℕ → ℕ → ℕ → Type 0
IsOnGrid step day_end cursor t = (k : ℕ) × (t ≡ cursor + k * step) × (t + step ≤ day_end)

mul_suc : (k step : ℕ) → suc k * step ≡ step + k * step
mul_suc k step = omega arith

slot_starts-IsOnGrid :
    (fuel step day_end cursor t : ℕ)
    → contains (slot_starts fuel step day_end cursor) t ≡ true
    → IsOnGrid step day_end cursor t
unfolding slot_starts
slot_starts-IsOnGrid zero step day_end cursor t h = absurd (ground arith)
slot_starts-IsOnGrid (suc fuel) step day_end cursor t h =
    elim (Bool-cases (leb (cursor + step) day_end)) [
      | inr over ↦ absurd (ground arith)
      | inl fits ↦ elim (Bool-cases (contains (slot_starts fuel step day_end (cursor + step)) t)) [
        | inl later ↦
            let (k, at, by) = slot_starts-IsOnGrid fuel step day_end (cursor + step) t later in
            (suc k, omega (arith, mul_suc k step), by)
        | inr first ↦ let here : cursor ≡ t = ground arith in (0, ground arith, ground arith)
      ]
    ]

IsOnGrid-slot_starts :
    (fuel step day_end cursor t k : ℕ)
    → day_end < cursor + fuel * step
    → t ≡ cursor + k * step
    → t + step ≤ day_end
    → contains (slot_starts fuel step day_end cursor) t ≡ true
unfolding slot_starts
IsOnGrid-slot_starts zero step day_end cursor t k enough at by = absurd (omega arith)
IsOnGrid-slot_starts (suc fuel) step day_end cursor t zero enough at by = ground arith
IsOnGrid-slot_starts (suc fuel) step day_end cursor t (suc k) enough at by =
    let later =
      IsOnGrid-slot_starts fuel step day_end (cursor + step) t k (omega (arith, mul_suc fuel step))
        (omega (arith, mul_suc k step)) by in
    let fits : cursor + step ≤ day_end = omega (arith, mul_suc k step) in ground arith

enough_rounds_enough :
    (step day_start day_end : ℕ)
    → minute_ms ≤ step
    → day_end < day_start + enough_rounds day_start day_end * step
enough_rounds_enough step day_start day_end h =
    omega (arith, mul-le-mul_left (enough_rounds day_start day_end) h)

slot_starts_grid :
    (step day_start day_end t : ℕ)
    → minute_ms ≤ step
    → (contains (slot_starts (enough_rounds day_start day_end) step day_end day_start) t ≡ true)
      ↔ IsOnGrid step day_end day_start t
slot_starts_grid step day_start day_end t h = (
  slot_starts-IsOnGrid (enough_rounds day_start day_end) step day_end day_start t,
  λ (k, at, by).
      IsOnGrid-slot_starts (enough_rounds day_start day_end) step day_end day_start t k
        (enough_rounds_enough step day_start day_end h) at by,
)

-- The slot of a work post from `t` on.
abbrev pub is_slot_of : ℕ → ℕ → ℕ → TimeSlot → Bool
is_slot_of step id t s = s.start == t && (s.end == t + step && s.work_post_id == id)

module _ (z : Zones) (db : Db) (params : CheckAvailabilityParams) (d : Day) (id t : ℕ) where
  capped_slots-slot :
      (cursor i : ℕ) (capped ids : List ℕ)
      → any (is_slot_of d.step id t) (capped_slots z db params d cursor capped i ids)
        ≡ (cursor == t && contains ids id)
  capped_slots-slot cursor i capped [] = ground arith
  capped_slots-slot cursor i capped (wp ∷ wps) =
      ground (arith, capped_slots-slot cursor (i + 1) capped wps)

  slots_at-slot :
      (cursor : ℕ)
      → any (is_slot_of d.step id t) (slots_at z db params d cursor)
        ≡ (cursor == t && contains (work_post_ids db params) id)
  unfolding slots_at
  slots_at-slot cursor = capped_slots-slot cursor 0 _ (work_post_ids db params)

  slots_from-slot :
      (cursors : List ℕ)
      → contains (work_post_ids db params) id ≡ true
      → any (is_slot_of d.step id t) (slots_from z db params d cursors) ≡ contains cursors t
  unfolding slots_from
  slots_from-slot [] offered = refl
  slots_from-slot (cursor ∷ cursors) offered =
      let here = slots_at-slot cursor in
      let later = slots_from-slot cursors offered in
      let split =
        any-append (is_slot_of d.step id t) (slots_at z db params d cursor)
          (slots_from z db params d cursors) in
      ground arith

  -- A day with steps of at least a minute has, for each work post that is offered, a slot from an
  -- instant on exactly when the instant is a whole number of steps after opening and the slot ends
  -- by closing time.
  pub day_slots-IsOnGrid :
      minute_ms ≤ d.step
      → contains (work_post_ids db params) id ≡ true
      → (any (is_slot_of d.step id t) (day_slots z db params d) ≡ true)
        ↔ IsOnGrid d.step d.end d.start t
  unfolding day_slots
  day_slots-IsOnGrid h offered =
      let same =
        slots_from-slot (slot_starts (enough_rounds d.start d.end) d.step d.end d.start) offered in
      let (to, from) = slot_starts_grid d.step d.start d.end t h in
      (λ found. to (sym same ∙ found), λ on_grid. same ∙ from on_grid)
