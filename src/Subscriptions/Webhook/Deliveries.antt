-- ===== src/Subscriptions/Webhook/Deliveries.antt =====
-- `processEvent` of src/modules/subscriptions/paddle-webhook.service.ts. Redis is an interface: a
-- store of keys that expire, with SET … EX … NX and DEL. The writes of a handler are no transaction: a
-- failure of the database while it runs is an argument, with the rows that the writes left by then.
pub mod Laws
use Prim.Native.String.{String}
use text.Mathlib.Text.{◌==◌ as str_eq}
use wash_flow.Prelude.{ℕ, ◌≡◌, ◌+◌, ◌*◌, ◌<◌, Bool, true, false, Option, none, some, List, [], ◌∷◌}
use wash_flow.Subscriptions.Limits.{Quotas}
use wash_flow.Subscriptions.Paddle.{PaddleConfig}
use wash_flow.Subscriptions.Webhook.{WebhookData, SubscriptionEvent, Handled, handled, threw}
use wash_flow.Subscriptions.Webhook.Handlers.{dispatch_handler}

pub record KeyStore : Type 1 where
  pub Keys : Type 0
  -- Whether a key is there at an instant.
  pub held : String → ℕ → Keys → Bool
  -- SET key 1 EX seconds NX at an instant: `none` is the null reply.
  pub set_nx : String → ℕ → ℕ → Keys → Option Keys
  pub del : String → Keys → Keys

-- What is assumed of Redis.
pub record IsKeyStore (redis : KeyStore) : Type 0 where
  pub set_nx_held :
      (key : String) (now seconds : ℕ) (keys : redis.Keys)
      → redis.held key now keys ≡ true
      → redis.set_nx key now seconds keys ≡ none
  pub set_nx_free :
      (key : String) (now seconds : ℕ) (keys : redis.Keys)
      → redis.held key now keys ≡ false
      → (keys' : redis.Keys) × (redis.set_nx key now seconds keys ≡ some keys')
  pub held-set_nx :
      (key : String) (now seconds t : ℕ) (keys keys' : redis.Keys)
      → redis.set_nx key now seconds keys ≡ some keys'
      → t < now + seconds * 1000
      → redis.held key t keys' ≡ true
  pub held-set_nx_other :
      (key other : String) (now seconds t : ℕ) (keys keys' : redis.Keys)
      → redis.set_nx key now seconds keys ≡ some keys'
      → str_eq key other ≡ false
      → redis.held other t keys' ≡ redis.held other t keys
  pub held-del :
      (key : String) (t : ℕ) (keys : redis.Keys) → redis.held key t (redis.del key keys) ≡ false
  pub held-del_other :
      (key other : String) (t : ℕ) (keys : redis.Keys)
      → str_eq key other ≡ false
      → redis.held other t (redis.del key keys) ≡ redis.held other t keys

pub record PaddleWebhookEvent : Type 0 where
  pub event_id : String
  pub event_type : String
  pub data' : WebhookData

abbrev pub idempotency_ttl_seconds : ℕ
idempotency_ttl_seconds = 86400

-- The rows and keys after a delivery, what it dispatched, and whether it threw.
pub record Delivered (redis : KeyStore) : Type 0 where
  pub db : Quotas
  pub keys : redis.Keys
  pub events : List SubscriptionEvent
  pub thrown : Bool

-- A delivery with its instant, and the rows that a failure of the database leaves, if it fails.
pub record Delivery : Type 0 where
  pub event : PaddleWebhookEvent
  pub at : ℕ
  pub failure : Option Quotas

abbrev pub cut_short : Option Quotas → Handled → Handled
cut_short none ended = ended
cut_short (some left) ended = threw left

module _ (config : PaddleConfig) (redis : KeyStore) where
  unfoldable pub process_event : Delivery → Quotas → redis.Keys → Delivered redis
  unfolding dispatch_handler
  process_event d db keys = elim (redis.set_nx d.event.event_id d.at idempotency_ttl_seconds keys) [
    | none ↦ record { db = db; keys = keys; events = []; thrown = false }
    | some keys' ↦
        elim (cut_short d.failure
          (dispatch_handler config d.event.event_type d.event.data' d.at db)) [
            | handled db' dispatched ↦ record {
              db = db';
              keys = keys';
              events = dispatched;
              thrown = false;
            }
            | threw left ↦ record {
              db = left;
              keys = redis.del d.event.event_id keys';
              events = [];
              thrown = true;
            }
          ]
  ]

  -- Deliveries one after the other.
  unfoldable pub process_all : List Delivery → Quotas → redis.Keys → Quotas × redis.Keys
  unfolding process_event
  process_all [] db keys = (db, keys)
  process_all (d ∷ rest) db keys =
      let after = process_event d db keys in process_all rest after.db after.keys
