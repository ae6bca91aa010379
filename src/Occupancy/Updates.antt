-- ===== src/Occupancy/Updates.antt =====
-- Changes of the table of orders, and double bookings.
use wash_flow.Prelude.{
  ℕ, ◌≡◌, ◌≢◌, inl, inr, Bool, true, Option, some, List, [], ◌∷◌, arith, All, All-find?,
  update_where, Bool-cases, find?,
}
use native.Mathlib.Decide.{ℕ_discrete}
use wash_flow.Database.{Order}
use wash_flow.Occupancy.{is_live}
use wash_flow.Occupancy.Apart.{Slot, Fits, Apart, Free, Claims, Fits-of_Free, Fits-symm}

module _ (key : Order → Option ℕ) where
  Fits-insert :
      (s : Slot) (o : Order) (os : List Order)
      → All (λ q. q.id ≢ o.id) os
      → Claims key o s
      → All (Free key s) os
      → All (Fits key o) os
  Fits-insert s o [] ids c f = tt
  Fits-insert s o (q ∷ os) ids c f =
      (Fits-of_Free key s o q (λ e. ids.0 (ground arith)) c f.0, Fits-insert s o os ids.1 c f.1)

  -- A new order may go in where its slot is free.
  pub Apart-insert :
      (s : Slot) (o : Order) (os : List Order)
      → All (λ q. q.id ≢ o.id) os
      → Claims key o s
      → All (Free key s) os
      → Apart key os
      → Apart key (o ∷ os)
  Apart-insert s o os ids c f a = (Fits-insert s o os ids c f, a)

  -- A change that moves no order and revives none.
  pub record Shrinks (f : Order → Order) (o : Order) : Type 0 where
    pub same_id : (f o).id ≡ o.id
    pub same_tenant : (f o).tenant_id ≡ o.tenant_id
    pub same_key : key (f o) ≡ key o
    pub same_start : (f o).scheduled_start ≡ o.scheduled_start
    pub same_end : (f o).scheduled_end ≡ o.scheduled_end
    pub no_revival : is_live (f o) ≡ true → is_live o ≡ true

  module _ (p : Order → Bool) (f : Order → Order) where
    Fits-shrink_left : (o q : Order) → Shrinks f o → Fits key o q → Fits key (f o) q
    Fits-shrink_left o q s h =
        (λ e. h.0 (ground arith), λ r a b t l m. ground (arith, h.1 r, s.no_revival l))

    Fits-shrink :
        (o : Order) (os : List Order)
        → All (λ q. p q ≡ true → Shrinks f q) os
        → All (Fits key o) os
        → All (Fits key o) (update_where p f os)
    Fits-shrink o [] s h = tt
    Fits-shrink o (q ∷ os) s h = elim (Bool-cases (p q)) [
      | inl hit ↦ rw hit (
        Fits-symm key (f q) o (Fits-shrink_left q o (s.0 hit) (Fits-symm key o q h.0)),
        Fits-shrink o os s.1 h.1,
      )
      | inr miss ↦ rw miss (h.0, Fits-shrink o os s.1 h.1)
    ]

    Fits-shrink_head :
        (o : Order) (os : List Order) → Shrinks f o → All (Fits key o) os → All (Fits key (f o)) os
    Fits-shrink_head o [] s h = tt
    Fits-shrink_head o (q ∷ os) s h = (Fits-shrink_left o q s h.0, Fits-shrink_head o os s h.1)

    pub Apart-shrink :
        (os : List Order)
        → All (λ q. p q ≡ true → Shrinks f q) os
        → Apart key os
        → Apart key (update_where p f os)
    Apart-shrink [] s a = tt
    Apart-shrink (o ∷ os) s a = elim (Bool-cases (p o)) [
      | inl hit ↦
          rw hit (
            Fits-shrink (f o) os s.1 (Fits-shrink_head o os (s.0 hit) a.0),
            Apart-shrink os s.1 a.1,
          )
      | inr miss ↦ rw miss (Fits-shrink o os s.1 a.0, Apart-shrink os s.1 a.1)
    ]

    -- The rows of one identifier, moved to a slot that the other orders leave free.
    module _ (i : ℕ) (s : Slot) (hits : (q : Order) → p q ≡ true → q.id ≡ i)
        (keeps : (q : Order) → (f q).id ≡ q.id) where
      abbrev Moves : Order → Type 0
      Moves q = p q ≡ true → Claims key (f q) s

      abbrev Leaves : Order → Type 0
      Leaves q = q.id ≢ i → Free key s q

      Fits-move_other :
          (o : Order) (os : List Order)
          → o.id ≢ i
          → Free key s o
          → All Moves os
          → All (Fits key o) os
          → All (Fits key o) (update_where p f os)
      Fits-move_other o [] ne free m h = tt
      Fits-move_other o (q ∷ os) ne free m h = elim (Bool-cases (p q)) [
        | inl hit ↦ rw hit (
          Fits-symm key (f q) o
              (Fits-of_Free key s (f q) o (λ e. h.0.0 (ground (arith, keeps q))) (m.0 hit) free),
          Fits-move_other o os ne free m.1 h.1,
        )
        | inr miss ↦ rw miss (h.0, Fits-move_other o os ne free m.1 h.1)
      ]

      -- Where the head has the identifier, no other row has it.
      Fits-move_head :
          (o : Order) (os : List Order)
          → o.id ≡ i
          → Claims key (f o) s
          → All Leaves os
          → All (Fits key o) os
          → All (Fits key (f o)) (update_where p f os)
      Fits-move_head o [] same c free h = tt
      Fits-move_head o (q ∷ os) same c free h = elim (Bool-cases (p q)) [
        | inl hit ↦ absurd (h.0.0 (ground (arith, hits q hit)))
        | inr miss ↦ rw miss (
          Fits-of_Free key s (f o) q (λ e. h.0.0 (ground (arith, keeps o))) c
              (free.0 (λ e. h.0.0 (ground arith))),
          Fits-move_head o os same c free.1 h.1,
        )
      ]

      Fits-move_miss :
          (o : Order) (os : List Order)
          → o.id ≡ i
          → All (Fits key o) os
          → All (Fits key o) (update_where p f os)
      Fits-move_miss o [] same h = tt
      Fits-move_miss o (q ∷ os) same h = elim (Bool-cases (p q)) [
        | inl hit ↦ absurd (h.0.0 (ground (arith, hits q hit)))
        | inr miss ↦ rw miss (h.0, Fits-move_miss o os same h.1)
      ]

      pub Apart-move :
          (os : List Order)
          → All Moves os
          → All Leaves os
          → Apart key os
          → Apart key (update_where p f os)
      Apart-move [] m free a = tt
      Apart-move (o ∷ os) m free a = elim (Bool-cases (p o)) [
        | inl hit ↦
            rw hit
              (Fits-move_head o os (hits o hit) (m.0 hit) free.1 a.0, Apart-move os m.1 free.1 a.1)
        | inr miss ↦ rw miss (
          elim (ℕ_discrete o.id i) [
            | yes same ↦ Fits-move_miss o os same a.0
            | no ne ↦ Fits-move_other o os ne (free.0 ne) m.1 a.0
          ],
          Apart-move os m.1 free.1 a.1,
        )
      ]

  -- A row that is found by its identifier is the only one with it.
  pub only_row :
      (t : Order → Bool) (os : List Order) (o : Order)
      → find? t os ≡ some o
      → Apart key os
      → All (λ q. q.id ≡ o.id → q ≡ o) os
  only_row t [] o h a = tt
  only_row t (q ∷ os) o h a = elim (Bool-cases (t q)) [
    | inl hit ↦ (λ e. ground arith, others os (rw (found hit) at a.0))
    | inr miss ↦ (
      λ e. absurd ((All-find? (Fits key q) t os o (ground arith) a.0).0 e),
      only_row t os o (ground arith) a.1,
    )
  ]
    where
      found : t q ≡ true → q ≡ o
      found hit = ground arith

      others : (ps : List Order) → All (Fits key o) ps → All (λ q. q.id ≡ o.id → q ≡ o) ps
      others [] f = tt
      others (p ∷ ps) f = (λ e. absurd (f.0.0 (ground arith)), others ps f.1)
