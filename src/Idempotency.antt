-- ===== src/Idempotency.antt =====
-- src/modules/idempotency: the request keys that let a client repeat a POST. The functions of
-- idempotency.service.ts stand over the table of keys, with the queries of
-- idempotency.repository.ts; SHA-256 over the JSON text is the argument `digest`.
pub mod Laws
pub mod Cache
mod Tests
use Prim.Native.Char.{code}
use Prim.Native.String
use Prim.Native.String.{String}
use text.Mathlib.Text.{◌==◌ as str_eq}
use wash_flow.Prelude.{
  ℕ, ◌+◌, ◌*◌, Bool, true, false, not, Option, none, some, List, [], ◌∷◌, ◌&&◌, ◌||◌, leb, ltb,
  ◌==◌, if◌then◌else◌, length, all, filter, find?, update_where, Result, ok, err, bad_request,
  conflict, throw_if, or_throw, ◌>>=◌, ◌>>◌,
}
use wash_flow.Database.{IdempotencyKey, ResponseBody, envelope, other_json}

pub data Kind : Type 0 where
  payment_v1 order_v1 : Kind

abbrev pub kind_text : Kind → String
kind_text payment_v1 = "payment-v1"
kind_text order_v1 = "order-v1"

pub record RequestIdentity : Type 0 where
  pub tenant_id : ℕ
  pub key : String
  pub method : String
  pub path : String
  pub kind : Kind
  pub actor_id : Option ℕ
  pub fingerprint : String

-- `{ replay: false }` or `{ replay: true, resourceId }`
pub data RequestClaim : Type 0 where
  fresh : RequestClaim
  replay : ℕ → RequestClaim

abbrev pub ttl_ms : ℕ
ttl_ms = 24 * 3600000

abbrev codes : String → List ℕ
codes String.[] = []
codes (String.◌∷◌ c s) = code c ∷ codes s

-- A character of the class [\w\-:.].
abbrev is_key_code : ℕ → Bool
is_key_code c =
    (leb b'a' c && leb c b'z')
    || ((leb b'A' c && leb c b'Z')
        || ((leb b'0' c && leb c b'9') || (c == b'_' || (c == b'-' || (c == b':' || c == b'.')))))

unfoldable pub is_valid_key : String → Bool
is_valid_key key =
    let cs = codes key in ltb 0 (length cs) && (leb (length cs) 128 && all is_key_code cs)

-- `requestIdentity`, over a request whose payload has the JSON text `payload`.
unfoldable pub request_identity :
    (String → String)
    → ℕ
    → Option String
    → String
    → String
    → Kind
    → Option ℕ
    → String
    → Result (Option RequestIdentity)
unfolding is_valid_key
request_identity digest tenant_id none method path kind actor_id payload = ok none
request_identity digest tenant_id (some key) method path kind actor_id payload = do
  throw_if (not (is_valid_key key)) (bad_request "Invalid idempotency-key header")
  ok (
      some (record {
        tenant_id = tenant_id;
        key = key;
        method = method;
        path = path;
        kind = kind;
        actor_id = actor_id;
        fingerprint = digest payload;
      }))

abbrev pub is_key : ℕ → String → IdempotencyKey → Bool
is_key tenant_id key row = row.tenant_id == tenant_id && str_eq row.key key

unfoldable pub find_by_key : ℕ → String → List IdempotencyKey → Option IdempotencyKey
find_by_key tenant_id key rows = find? (is_key tenant_id key) rows

abbrev option_eq : Option ℕ → Option ℕ → Bool
option_eq none none = true
option_eq (some a) (some b) = a == b
option_eq _ _ = false

-- `requestEnvelope`
unfoldable pub request_envelope : RequestIdentity → ResponseBody
request_envelope identity =
    envelope (kind_text identity.kind) identity.actor_id identity.fingerprint none

abbrev replay_saved : ℕ → Option ℕ → Result RequestClaim
replay_saved status_code none = err (conflict "Request is being processed")
replay_saved status_code (some id) =
    if leb status_code 0 then err (conflict "Request is being processed") else ok (replay id)

replay_body : IdempotencyKey → RequestIdentity → ResponseBody → Result RequestClaim
replay_body existing identity (other_json text) =
    err (conflict "Idempotency key belongs to a different request")
replay_body existing identity (envelope kind actor_id fingerprint resource_id) =
    if str_eq existing.method identity.method
      && (str_eq existing.path identity.path
          && (str_eq kind (kind_text identity.kind)
              && (option_eq actor_id identity.actor_id && str_eq fingerprint identity.fingerprint)))
    then replay_saved existing.status_code resource_id
    else err (conflict "Idempotency key belongs to a different request")

unfoldable pub replay_request : IdempotencyKey → RequestIdentity → Result RequestClaim
unfolding replay_body
replay_request existing identity = replay_body existing identity existing.response_body

-- `readRequestTx`: `none` is null.
unfoldable pub read_request :
    List IdempotencyKey → RequestIdentity → ℕ → Result (Option RequestClaim)
unfolding find_by_key replay_request
read_request rows identity now = elim (find_by_key identity.tenant_id identity.key rows) [
  | none ↦ ok none
  | some existing ↦
      if ltb now existing.expires_at
      then (replay_request existing identity >>= λ claim. ok (some claim))
      else ok none
]

claimed_row : RequestIdentity → ℕ → IdempotencyKey
unfolding request_envelope
claimed_row identity now = record {
  key = identity.key;
  tenant_id = identity.tenant_id;
  method = identity.method;
  path = identity.path;
  status_code = 0;
  response_body = request_envelope identity;
  expires_at = now + ttl_ms;
}

-- `acquireRequestLock`: an INSERT that takes over the key's row only if it has expired.
unfoldable pub acquire_request_lock :
    List IdempotencyKey → RequestIdentity → ℕ → Bool × List IdempotencyKey
unfolding claimed_row find_by_key
acquire_request_lock rows identity now = elim (find_by_key identity.tenant_id identity.key rows) [
  | none ↦ (true, claimed_row identity now ∷ rows)
  | some old ↦
      if leb old.expires_at now
      then (
        true,
        update_where (is_key identity.tenant_id identity.key) (λ _. claimed_row identity now) rows,
      )
      else (false, rows)
]

claim_new : List IdempotencyKey → RequestIdentity → ℕ → Result (RequestClaim × List IdempotencyKey)
unfolding acquire_request_lock replay_request
claim_new rows identity now =
    let (acquired, rows') = acquire_request_lock rows identity now in
    if acquired then ok (fresh, rows') else (do
      winner ←
          or_throw (find_by_key identity.tenant_id identity.key rows')
            (conflict "Request is being processed")
      claim ← replay_request winner identity
      ok (claim, rows'))

-- `claimRequestTx`
unfoldable pub claim_request :
    List IdempotencyKey → RequestIdentity → ℕ → Result (RequestClaim × List IdempotencyKey)
unfolding claim_new
claim_request rows identity now = elim (find_by_key identity.tenant_id identity.key rows) [
  | none ↦ claim_new rows identity now
  | some existing ↦
      if ltb now existing.expires_at
      then (replay_request existing identity >>= λ claim. ok (claim, rows))
      else claim_new rows identity now
]

abbrev saved_envelope : RequestIdentity → ℕ → ResponseBody
saved_envelope identity resource_id =
    envelope (kind_text identity.kind) identity.actor_id identity.fingerprint (some resource_id)

-- `saveRequestTx`
unfoldable pub save_request : List IdempotencyKey → RequestIdentity → ℕ → List IdempotencyKey
save_request rows identity resource_id =
    update_where (is_key identity.tenant_id identity.key)
      (λ row. record row { status_code = 201; response_body = saved_envelope identity resource_id })
      rows

-- `cleanExpired`
unfoldable pub clean_expired : List IdempotencyKey → ℕ → List IdempotencyKey
clean_expired rows now = filter (λ row. leb now row.expires_at) rows
