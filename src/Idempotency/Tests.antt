-- ===== src/Idempotency/Tests.antt =====
-- The laws of the request keys at concrete requests.
use wash_flow.Prelude.{
  ◌+◌, ◌<◌, ◌≤◌, ◌≡◌, refl, ◌≢◌, none, some, List, [], ok, err, conflict, bad_request, arith,
}
use wash_flow.Database.{IdempotencyKey}
use wash_flow.Idempotency.{
  ttl_ms, order_v1, RequestIdentity, fresh, replay, request_identity, find_by_key, claim_request,
  save_request, acquire_request_lock,
}
use wash_flow.Idempotency.Cache.{KeyedResponse, save, check}
use wash_flow.Idempotency.Cache.Laws.{save-check}
use wash_flow.Idempotency.Laws.{claim_request-save_request}

abbrev booking : RequestIdentity
booking = record {
  tenant_id = 1;
  key = "k-1";
  method = "POST";
  path = "/orders";
  kind = order_v1;
  actor_id = some 9;
  fingerprint = "abc";
}

abbrev other_booking : RequestIdentity
other_booking = record booking { fingerprint = "xyz" }

abbrev claimed_rows : List IdempotencyKey
claimed_rows = (acquire_request_lock [] booking 1000).1

claims_fresh : claim_request [] booking 1000 ≡ ok (fresh, claimed_rows)
unfolding claim_request
claims_fresh = refl

keys_checked :
    (request_identity (λ s. s) 1 (some "a b") "POST" "/orders" order_v1 none "{}"
      ≡ err (bad_request "Invalid idempotency-key header"))
    × (request_identity (λ s. s) 1 none "POST" "/orders" order_v1 none "{}" ≡ ok none)
unfolding request_identity
keys_checked = (refl, refl)

claim_request-save_request_example :
    let saved = save_request claimed_rows booking 77 in
    (booking ≡ booking → claim_request saved booking 2000 ≡ ok (replay 77, saved))
    × (booking ≢ booking
        → claim_request saved booking 2000
          ≡ err (conflict "Idempotency key belongs to a different request"))
claim_request-save_request_example =
    claim_request-save_request [] claimed_rows booking booking 1000 2000 77 claims_fresh refl refl
      (omega arith)

abbrev stale : IdempotencyKey
stale = record {
  key = "k-1";
  tenant_id = 1;
  method = "POST";
  path = "/orders";
  status_code = 201;
  response_body = wash_flow.Database.other_json "{}";
  expires_at = 500;
}

abbrev first_response : KeyedResponse
first_response = record {
  method = "POST";
  path = "/clients";
  status_code = 201;
  body = wash_flow.Database.other_json "{}";
}

save-check_example :
    let saved = save [] 1 "k-1" first_response 1000 in
    (save saved 1 "k-1" first_response 1500 ≡ saved)
    × (2000 < 1000 + ttl_ms
        → check saved 1 "k-1" 2000
          ≡ some (record { status_code = 201; body = wash_flow.Database.other_json "{}" }))
    × (1000 + ttl_ms ≤ 2000 → check saved 1 "k-1" 2000 ≡ none)
unfolding find_by_key
save-check_example =
    save-check [] 1 "k-1" first_response first_response 1000 1500 2000 refl (omega arith)
