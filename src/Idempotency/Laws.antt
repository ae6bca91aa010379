-- ===== src/Idempotency/Laws.antt =====
-- What a request key guarantees.
use Prim.Native.String.{String}
use text.Mathlib.Text.{◌==◌ as str_eq}
use text.Mathlib.TextEquality.{eq_iff}
use text.Mathlib.TextPositions.{eq_refl}
use wash_flow.Prelude.{
  ℕ, ◌+◌, ◌≤◌, ◌<◌, ◌≡◌, refl, ◌∙◌, ◌≢◌, ◌↔◌, ◌⊎◌, inl, inr, Bool, true, false, Option, none, some,
  List, Result, ◌>>=◌, ok, err, conflict, arith, Option-cases, find?-update_where,
  find?-update_where_ne,
}
use wash_flow.Database.{IdempotencyKey}
use wash_flow.Idempotency.{
  Kind, payment_v1, order_v1, kind_text, option_eq, RequestIdentity, fresh, replay, ttl_ms, is_key,
  find_by_key, replay_request, claimed_row, acquire_request_lock, claim_request, save_request,
  saved_envelope,
}

replay_request-ne-fresh :
    (row : IdempotencyKey) (i : RequestIdentity) → replay_request row i ≢ ok fresh
unfolding replay_request
replay_request-ne-fresh row i = ground arith

claimed-is_key :
    (i : RequestIdentity) (now : ℕ) → is_key i.tenant_id i.key (claimed_row i now) ≡ true
unfolding claimed_row
claimed-is_key i now = ground (arith, eq_refl i.key)

-- Taking over a key leaves the new claim as the key's row.
acquire_finds :
    (rows rows' : List IdempotencyKey) (i : RequestIdentity) (now : ℕ)
    → acquire_request_lock rows i now ≡ (true, rows')
    → find_by_key i.tenant_id i.key rows' ≡ some (claimed_row i now)
unfolding acquire_request_lock
acquire_finds rows rows' i now h = elim (Option-cases (find_by_key i.tenant_id i.key rows)) [
  | inl missing ↦ ground (arith, claimed-is_key i now)
  | inr (old, found) ↦ ground (
    arith,
    find?-update_where (is_key i.tenant_id i.key) (λ _. claimed_row i now) rows old
        (λ _ _. claimed-is_key i now) found,
  )
]

-- A fresh claim has taken its key over.
fresh_acquires :
    (rows rows' : List IdempotencyKey) (i : RequestIdentity) (now : ℕ)
    → claim_request rows i now ≡ ok (fresh, rows')
    → acquire_request_lock rows i now ≡ (true, rows')
unfolding claim_request
fresh_acquires rows rows' i now h = elim (Option-cases (find_by_key i.tenant_id i.key rows)) [
  | inl missing ↦ ground arith
  | inr (old, found) ↦ ground (arith, replay_request-ne-fresh old i)
]

saved_row : RequestIdentity → ℕ → ℕ → IdempotencyKey
saved_row i now id = record (claimed_row i now) {
  status_code = 201;
  response_body = saved_envelope i id;
}

find_saved :
    (rows rows' : List IdempotencyKey) (i : RequestIdentity) (now id : ℕ)
    → claim_request rows i now ≡ ok (fresh, rows')
    → find_by_key i.tenant_id i.key (save_request rows' i id) ≡ some (saved_row i now id)
unfolding saved_row save_request find_by_key
find_saved rows rows' i now id h =
    find?-update_where (is_key i.tenant_id i.key) _ rows' (claimed_row i now) (λ _ e. e)
      (acquire_finds rows rows' i now (fresh_acquires rows rows' i now h))

kind_eq : (k l : Kind) → str_eq (kind_text k) (kind_text l) ≡ true → k ≡ l
kind_eq payment_v1 payment_v1 h = refl
kind_eq payment_v1 order_v1 h = ground arith
kind_eq order_v1 payment_v1 h = ground arith
kind_eq order_v1 order_v1 h = refl

option_eq_iff : (a b : Option ℕ) → (option_eq a b ≡ true) ↔ (a ≡ b)
option_eq_iff none none = ground arith
option_eq_iff none (some b) = ground arith
option_eq_iff (some a) none = ground arith
option_eq_iff (some a) (some b) = ground arith

-- The stored answer of `i` is replayed to `i` itself only.
replay_request-saved_row :
    (i j : RequestIdentity) (now id : ℕ)
    → j.tenant_id ≡ i.tenant_id
    → j.key ≡ i.key
    → (j ≡ i → replay_request (saved_row i now id) j ≡ ok (replay id))
      × (j ≢ i
          → replay_request (saved_row i now id) j
            ≡ err (conflict "Idempotency key belongs to a different request"))
unfolding replay_request saved_row claimed_row
replay_request-saved_row i j now id t k = (same, other)
  where
    same : j ≡ i → replay_request (saved_row i now id) j ≡ ok (replay id)
    same e = rw e (
        ground (
          arith,
          eq_refl i.method,
          eq_refl i.path,
          eq_refl (kind_text i.kind),
          eq_refl i.fingerprint,
          option_eq_iff i.actor_id i.actor_id,
        ))

    other :
        j ≢ i
        → replay_request (saved_row i now id) j
          ≡ err (conflict "Idempotency key belongs to a different request")
    other ne = ground (
      arith,
      eq_iff i.method j.method,
      eq_iff i.path j.path,
      kind_eq i.kind j.kind,
      eq_iff i.fingerprint j.fingerprint,
      option_eq_iff i.actor_id j.actor_id,
    )

abbrev pub is_conflict {ℓ} : {A : Type ℓ} → Result A → Bool
is_conflict (err (conflict s)) = true
is_conflict _ = false

pending_refused :
    (i j : RequestIdentity) (now : ℕ) → is_conflict (replay_request (claimed_row i now) j) ≡ true
unfolding replay_request claimed_row
pending_refused i j now = ground arith

claim_live :
    (rows : List IdempotencyKey) (j : RequestIdentity) (now : ℕ) (row : IdempotencyKey)
    → find_by_key j.tenant_id j.key rows ≡ some row
    → now < row.expires_at
    → claim_request rows j now ≡ (replay_request row j >>= λ claim. ok (claim, rows))
unfolding claim_request
claim_live rows j now row found live = ground arith

-- A table in which the row of the key is the one saved answers the same request with its resource.
pub claim_request-find_by_key :
    (rows rows' rows2 : List IdempotencyKey) (i : RequestIdentity) (now later id : ℕ)
    → claim_request rows i now ≡ ok (fresh, rows')
    → find_by_key i.tenant_id i.key rows2 ≡ find_by_key i.tenant_id i.key (save_request rows' i id)
    → later < now + ttl_ms
    → claim_request rows2 i later ≡ ok (replay id, rows2)
claim_request-find_by_key rows rows' rows2 i now later id h same live =
    let stored =
      claim_live rows2 i later (saved_row i now id) (same ∙ find_saved rows rows' i now id h)
        (unfold saved_row claimed_row in live) in
    let (answer, _) = replay_request-saved_row i i now id refl refl in
    ground (arith, stored, answer refl)

-- After a fresh claim of a request and the save of its resource, for as long as the claim lives,
-- the same request is answered with that resource, and any other request under the same key of the
-- same tenant is refused with a conflict; neither changes the table.
pub claim_request-save_request :
    (rows rows' : List IdempotencyKey) (i j : RequestIdentity) (now later id : ℕ)
    → claim_request rows i now ≡ ok (fresh, rows')
    → j.tenant_id ≡ i.tenant_id
    → j.key ≡ i.key
    → later < now + ttl_ms
    → let saved = save_request rows' i id in
      (j ≡ i → claim_request saved j later ≡ ok (replay id, saved))
      × (j ≢ i
          → claim_request saved j later
            ≡ err (conflict "Idempotency key belongs to a different request"))
claim_request-save_request rows rows' i j now later id h t k live =
    let stored =
      claim_live (save_request rows' i id) j later (saved_row i now id)
        (rw (t, k) (find_saved rows rows' i now id h)) (unfold saved_row claimed_row in live) in
    let (same, other) = replay_request-saved_row i j now id t k in
    (λ e. ground (arith, stored, same e), λ ne. ground (arith, stored, other ne))

-- Until the resource is saved, nobody else's claim of the key is fresh: every claim under it that
-- comes while the first one lives is refused with a conflict.
claim_request_pending :
    (rows rows' : List IdempotencyKey) (i j : RequestIdentity) (now later : ℕ)
    → claim_request rows i now ≡ ok (fresh, rows')
    → j.tenant_id ≡ i.tenant_id
    → j.key ≡ i.key
    → later < now + ttl_ms
    → is_conflict (claim_request rows' j later) ≡ true
claim_request_pending rows rows' i j now later h t k live =
    let stored =
      claim_live rows' j later (claimed_row i now)
        (rw (t, k) (acquire_finds rows rows' i now (fresh_acquires rows rows' i now h)))
        (unfold claimed_row in live) in
    ground (arith, stored, pending_refused i j now)

-- Once the claim has expired, the key can be claimed by any request afresh.
claim_request_expired :
    (rows : List IdempotencyKey) (j : RequestIdentity) (now : ℕ) (row : IdempotencyKey)
    → find_by_key j.tenant_id j.key rows ≡ some row
    → row.expires_at ≤ now
    → (rows' : List IdempotencyKey) × (claim_request rows j now ≡ ok (fresh, rows'))
unfolding claim_request
claim_request_expired rows j now row found expired =
    ((acquire_request_lock rows j now).1, ground arith)

is_key_apart :
    (t u : ℕ) (k l : String) (row : IdempotencyKey)
    → (u ≢ t) ⊎ (l ≢ k)
    → is_key t k row ≡ true
    → is_key u l row ≡ false
is_key_apart t u k l row ne h = ground (arith, eq_iff row.key k, eq_iff row.key l)

acquire_frame :
    (rows rows' : List IdempotencyKey) (i : RequestIdentity) (now u : ℕ) (l : String)
    → acquire_request_lock rows i now ≡ (true, rows')
    → (u ≢ i.tenant_id) ⊎ (l ≢ i.key)
    → find_by_key u l rows' ≡ find_by_key u l rows
unfolding acquire_request_lock
acquire_frame rows rows' i now u l h ne =
    let missed = is_key_apart i.tenant_id u i.key l (claimed_row i now) ne (claimed-is_key i now) in
    elim (Option-cases (find_by_key i.tenant_id i.key rows)) [
      | inl missing ↦ ground (arith, missed)
      | inr (old, found) ↦ ground (
        arith,
        find?-update_where_ne (is_key u l) (is_key i.tenant_id i.key) (λ _. claimed_row i now) rows
            (λ y e. (is_key_apart i.tenant_id u i.key l y ne e, missed)),
      )
    ]

-- A claim and a save leave the rows of every other key as they were.
claim_request_frame :
    (rows rows' : List IdempotencyKey) (i : RequestIdentity) (now id u : ℕ) (l : String)
    → claim_request rows i now ≡ ok (fresh, rows')
    → (u ≢ i.tenant_id) ⊎ (l ≢ i.key)
    → find_by_key u l (save_request rows' i id) ≡ find_by_key u l rows
unfolding save_request find_by_key
claim_request_frame rows rows' i now id u l h ne =
    find?-update_where_ne (is_key u l) (is_key i.tenant_id i.key) _ rows' (λ y e.
      (is_key_apart i.tenant_id u i.key l y ne e, is_key_apart i.tenant_id u i.key l y ne e))
    ∙ acquire_frame rows rows' i now u l (fresh_acquires rows rows' i now h) ne
