-- ===== src/Occupancy/Apart.antt =====
-- No double booking, as a property of the table of orders, and what an empty query says of it.
use wash_flow.Prelude.{
  ℕ, ◌≤◌, ◌≡◌, ◌≢◌, ◌⊎◌, true, false, Option, some, List, [], ◌∷◌, arith, All, filter, length, any,
}
use wash_flow.Database.{Order}
use wash_flow.Occupancy.{busy, not_excluded, buffered_start, buffered_end, is_live}

-- A claim on a resource of a tenant from `start` to `end`; `none` claims nothing.
pub record Slot : Type 0 where
  pub tenant_id : ℕ
  pub resource : Option ℕ
  pub start : ℕ
  pub end : ℕ

module _ (key : Order → Option ℕ) where
  -- Two orders are different, and if both hold one resource of a tenant, one ends before the other
  -- starts.
  abbrev pub Fits : Order → Order → Type 0
  Fits o p =
      (o.id ≢ p.id)
      × ((r : ℕ)
          → key o ≡ some r
          → key p ≡ some r
          → o.tenant_id ≡ p.tenant_id
          → is_live o ≡ true
          → is_live p ≡ true
          → (o.scheduled_end ≤ p.scheduled_start) ⊎ (p.scheduled_end ≤ o.scheduled_start))

  -- No identifier occurs twice, and no resource is booked twice at a time.
  abbrev pub Apart : List Order → Type 0
  Apart [] = Unit
  Apart (o ∷ os) = All (Fits o) os × Apart os

  -- An order leaves a slot free.
  abbrev pub Free : Slot → Order → Type 0
  Free s q =
      (r : ℕ)
      → s.resource ≡ some r
      → key q ≡ some r
      → q.tenant_id ≡ s.tenant_id
      → is_live q ≡ true
      → (q.scheduled_end ≤ s.start) ⊎ (s.end ≤ q.scheduled_start)

  -- An order holds just this slot.
  pub record Claims (o : Order) (s : Slot) : Type 0 where
    pub tenant : o.tenant_id ≡ s.tenant_id
    pub resource : key o ≡ s.resource
    pub start : o.scheduled_start ≡ s.start
    pub end : o.scheduled_end ≡ s.end

  abbrev pub slot_of : Order → Slot
  slot_of o = record {
    tenant_id = o.tenant_id;
    resource = key o;
    start = o.scheduled_start;
    end = o.scheduled_end;
  }

  pub Fits-of_Free : (s : Slot) (o q : Order) → o.id ≢ q.id → Claims o s → Free s q → Fits o q
  Fits-of_Free s o q ne c f = (ne, λ r a b t l m. ground (arith, f r))

  pub Fits-symm : (o q : Order) → Fits o q → Fits q o
  Fits-symm o q f = (λ e. f.0 (ground arith), λ r a b t l m. ground (arith, f.1 r))

  -- An order that is not busy with the resource around the slot leaves the slot free.
  pub Free-of_not_busy :
      (tenant_id r start end buffer : ℕ) (exclude : Option ℕ) (q : Order)
      → busy key tenant_id r (buffered_start start buffer) (buffered_end end buffer) exclude q
        ≡ false
      → not_excluded exclude q.id ≡ true
      → Free (record { tenant_id = tenant_id; resource = some r; start = start; end = end }) q
  unfolding busy
  Free-of_not_busy tenant_id r start end buffer exclude q h k = λ r' e f t l. ground arith

  -- So a count of zero leaves it free of every order that was counted.
  pub All-count_overlapping :
      (tenant_id r start end buffer : ℕ) (exclude : Option ℕ) (os : List Order)
      → length (
          filter
            (busy key tenant_id r (buffered_start start buffer) (buffered_end end buffer) exclude)
            os)
        ≡ 0
      → All
          (λ q.
            not_excluded exclude q.id ≡ true
            → Free
                (record { tenant_id = tenant_id; resource = some r; start = start; end = end })
                q)
          os
  All-count_overlapping tenant_id r start end buffer exclude [] h = tt
  All-count_overlapping tenant_id r start end buffer exclude (q ∷ os) h = (
    λ k. Free-of_not_busy tenant_id r start end buffer exclude q (ground arith) k,
    All-count_overlapping tenant_id r start end buffer exclude os (ground arith),
  )

  pub All-has_order :
      (tenant_id r start end buffer : ℕ) (exclude : Option ℕ) (os : List Order)
      → any
          (busy key tenant_id r (buffered_start start buffer) (buffered_end end buffer) exclude)
          os
        ≡ false
      → All
          (λ q.
            not_excluded exclude q.id ≡ true
            → Free
                (record { tenant_id = tenant_id; resource = some r; start = start; end = end })
                q)
          os
  All-has_order tenant_id r start end buffer exclude [] h = tt
  All-has_order tenant_id r start end buffer exclude (q ∷ os) h = (
    λ k. Free-of_not_busy tenant_id r start end buffer exclude q (ground arith) k,
    All-has_order tenant_id r start end buffer exclude os (ground arith),
  )
