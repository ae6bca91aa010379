-- ===== src/Idempotency/Cache.antt =====
-- The older use of the keys in src/modules/idempotency/idempotency.service.ts, by the interceptor:
-- check and checkTx, acquireLockTx, saveResultTx and save. A body is a JSON value, by its text.
pub mod Laws
use Prim.Native.String.{String}
use wash_flow.Prelude.{
  ℕ, ◌+◌, Bool, true, false, Option, none, some, List, ◌∷◌, ◌&&◌, ltb, update_where, if◌then◌else◌,
}
use wash_flow.Database.{IdempotencyKey, ResponseBody, other_json}
use wash_flow.Idempotency.{find_by_key, is_key, ttl_ms}

pub record CachedResponse : Type 0 where
  pub status_code : ℕ
  pub body : ResponseBody

-- `check`, and `checkTx` in a transaction: `none` is a miss.
unfoldable pub check : List IdempotencyKey → ℕ → String → ℕ → Option CachedResponse
unfolding find_by_key
check rows tenant_id key now = elim (find_by_key tenant_id key rows) [
  | none ↦ none
  | some existing ↦
      if ltb now existing.expires_at && ltb 0 existing.status_code
      then some (record { status_code = existing.status_code; body = existing.response_body })
      else none
]

pub record KeyedResponse : Type 0 where
  pub method : String
  pub path : String
  pub status_code : ℕ
  pub body : ResponseBody

abbrev pub response_row : ℕ → String → KeyedResponse → ℕ → IdempotencyKey
response_row tenant_id key params now = record {
  key = key;
  tenant_id = tenant_id;
  method = params.method;
  path = params.path;
  status_code = params.status_code;
  response_body = params.body;
  expires_at = now + ttl_ms;
}

-- `acquireLockTx`: an INSERT that does nothing on a key that is there.
unfoldable pub acquire_lock :
    List IdempotencyKey → ℕ → String → String → String → ℕ → Bool × List IdempotencyKey
unfolding find_by_key
acquire_lock rows tenant_id key method path now = elim (find_by_key tenant_id key rows) [
  | some existing ↦ (false, rows)
  | none ↦
      let locked : KeyedResponse = record {
        method = method;
        path = path;
        status_code = 0;
        body = other_json "{}";
      } in
      (true, response_row tenant_id key locked now ∷ rows)
]

-- `saveResultTx`: `none` is the error of an update that finds no row.
unfoldable pub save_result :
    List IdempotencyKey → ℕ → String → ℕ → ResponseBody → Option (List IdempotencyKey)
unfolding find_by_key
save_result rows tenant_id key status_code body = elim (find_by_key tenant_id key rows) [
  | none ↦ none
  | some existing ↦ some (
      update_where (is_key tenant_id key)
        (λ row. record row { status_code = status_code; response_body = body }) rows)
]

-- `save`: an upsert whose update is empty.
unfoldable pub save : List IdempotencyKey → ℕ → String → KeyedResponse → ℕ → List IdempotencyKey
unfolding find_by_key
save rows tenant_id key params now = elim (find_by_key tenant_id key rows) [
  | some existing ↦ rows
  | none ↦ response_row tenant_id key params now ∷ rows
]
