-- ===== src/Idempotency/Cache/Laws.antt =====
-- What the interceptor's cache answers.
use Prim.Native.String.{String}
use text.Mathlib.TextPositions.{eq_refl}
use wash_flow.Prelude.{ℕ, ◌+◌, ◌<◌, ◌≤◌, ◌≡◌, none, some, List, ◌∷◌, arith}
use wash_flow.Database.{IdempotencyKey}
use wash_flow.Idempotency.{find_by_key, ttl_ms}
use wash_flow.Idempotency.Cache.{KeyedResponse, check, response_row, save}

module _ (rows : List IdempotencyKey) (tenant_id : ℕ) (key : String) (params : KeyedResponse)
    (now : ℕ) where
  saved_first :
      find_by_key tenant_id key rows ≡ none
      → save rows tenant_id key params now ≡ response_row tenant_id key params now ∷ rows
  unfolding save
  saved_first unused = ground arith

  found_first :
      find_by_key tenant_id key (response_row tenant_id key params now ∷ rows)
      ≡ some (response_row tenant_id key params now)
  unfolding find_by_key
  found_first = ground (arith, eq_refl key)

-- The first response saved under an unused key is the one that the key answers with until it
-- expires, whatever is saved under the key after it; once it has expired the key answers nothing,
-- and nothing can be saved under it until the row is cleaned away.
pub save-check :
    (rows : List IdempotencyKey) (tenant_id : ℕ) (key : String) (params other : KeyedResponse)
    (now between later : ℕ)
    → find_by_key tenant_id key rows ≡ none
    → 0 < params.status_code
    → let saved = save rows tenant_id key params now in
      (save saved tenant_id key other between ≡ saved)
      × (later < now + ttl_ms
          → check saved tenant_id key later
            ≡ some (record { status_code = params.status_code; body = params.body }))
      × (now + ttl_ms ≤ later → check saved tenant_id key later ≡ none)
unfolding check save
save-check rows tenant_id key params other now between later unused positive =
    let saved = saved_first rows tenant_id key params now unused in
    let found = found_first rows tenant_id key params now in
    (
      ground (arith, saved, found),
      λ live. ground (arith, saved, found),
      λ over. ground (arith, saved, found),
    )
