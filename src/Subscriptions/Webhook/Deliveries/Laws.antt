-- ===== src/Subscriptions/Webhook/Deliveries/Laws.antt =====
-- An event is handled once, and again only if its handling failed.
use Prim.Native.String.{String}
use text.Mathlib.Text.{◌==◌ as str_eq}
use text.Mathlib.TextEquality.{eq_iff}
use wash_flow.Prelude.{
  ℕ, ◌≡◌, ◌⊎◌, refl, sym, subst, ◌∙◌, ap, ◌+◌, ◌*◌, ◌<◌, true, false, Option, none, List, [], ◌∷◌,
  arith, All, Bool-cases, Option-cases, inl, inr,
}
use wash_flow.Subscriptions.Limits.{Quotas}
use wash_flow.Subscriptions.Paddle.{PaddleConfig}
use wash_flow.Subscriptions.Webhook.{SubscriptionEvent, Handled, handled, threw}
use wash_flow.Subscriptions.Webhook.Handlers.{dispatch_handler}
use wash_flow.Subscriptions.Webhook.Deliveries.{
  KeyStore, IsKeyStore, PaddleWebhookEvent, Delivery, cut_short, idempotency_ttl_seconds, Delivered,
  process_event, process_all,
}

Handled-cases :
    (h : Handled)
    → ((db : Quotas) × (events : List SubscriptionEvent) × (h ≡ handled db events))
      ⊎ ((left : Quotas) × (h ≡ threw left))
Handled-cases (handled db events) = inl (db, events, refl)
Handled-cases (threw left) = inr (left, refl)

module _ (config : PaddleConfig) (redis : KeyStore) (is : IsKeyStore redis) where
  -- The key is there until the instant `end`.
  abbrev IsHeld : String → ℕ → redis.Keys → Type 0
  IsHeld key end keys = (t : ℕ) → t < end → redis.held key t keys ≡ true

  module _ (d : Delivery) (db : Quotas) (keys : redis.Keys) where
    abbrev event : PaddleWebhookEvent
    event = d.event

    abbrev now : ℕ
    now = d.at

    abbrev ended : Handled
    ended = cut_short d.failure (dispatch_handler config event.event_type event.data' now db)

    abbrev after : Delivered redis
    after = process_event config redis d db keys

    skips :
        redis.held event.event_id now keys ≡ true
        → after ≡ record { db = db; keys = keys; events = []; thrown = false }
    unfolding process_event
    skips h =
        let taken = is.set_nx_held event.event_id now idempotency_ttl_seconds keys h in ground arith

    keeps_other :
        (key : String) (t : ℕ)
        → str_eq event.event_id key ≡ false
        → redis.held key t after.keys ≡ redis.held key t keys
    unfolding process_event
    keeps_other key t apart =
        elim (Option-cases (redis.set_nx event.event_id now idempotency_ttl_seconds keys)) [
          | inl taken ↦ ground arith
          | inr (keys', set) ↦
              let kept =
                is.held-set_nx_other event.event_id key now idempotency_ttl_seconds t keys keys' set
                  apart in
              elim (Handled-cases ended) [
                | inl (db', events, done) ↦ ground arith
                | inr (left, failed) ↦
                    let dropped = is.held-del_other event.event_id key t keys' apart in ground arith
              ]
        ]

    process_event-IsHeld :
        (key : String) (end : ℕ) → now < end → IsHeld key end keys → IsHeld key end after.keys
    process_event-IsHeld key end early held t before =
        elim (Bool-cases (str_eq event.event_id key)) [
          | inl same ↦
              let is_key : event.event_id ≡ key = (eq_iff event.event_id key).0 same in
              let skipped =
                skips (subst (λ k. redis.held k now keys ≡ true) (sym is_key) (held now early)) in
              ap (λ a. redis.held key t a.keys) skipped ∙ held t before
          | inr apart ↦ keeps_other key t apart ∙ held t before
        ]

    releases : after.thrown ≡ true → (t : ℕ) → redis.held event.event_id t after.keys ≡ false
    unfolding process_event
    releases failed =
        elim (Option-cases (redis.set_nx event.event_id now idempotency_ttl_seconds keys)) [
          | inl taken ↦ absurd (ground arith)
          | inr (keys', set) ↦ elim (Handled-cases ended) [
            | inl (db', events, done) ↦ absurd (ground arith)
            | inr (left, failed) ↦
                λ t. let dropped = is.held-del event.event_id t keys' in ground arith
          ]
        ]

    handles :
        (db' : Quotas) (events : List SubscriptionEvent)
        → redis.held event.event_id now keys ≡ false
        → ended ≡ handled db' events
        → (after.thrown ≡ false) × (after.db ≡ db') × (after.events ≡ events)
    unfolding process_event
    handles db' events free done =
        let (keys', set) = is.set_nx_free event.event_id now idempotency_ttl_seconds keys free in
        (ground arith, ground arith, ground arith)

    holds :
        redis.held event.event_id now keys ≡ false
        → after.thrown ≡ false
        → IsHeld event.event_id (now + idempotency_ttl_seconds * 1000) after.keys
    unfolding process_event
    holds free fine t before =
        let (keys', set) = is.set_nx_free event.event_id now idempotency_ttl_seconds keys free in
        let there =
          is.held-set_nx event.event_id now idempotency_ttl_seconds t keys keys' set before in
        elim (Handled-cases ended) [
          | inl (db', events, done) ↦ ground arith
          | inr (left, failed) ↦ absurd (ground arith)
        ]

  process_all-IsHeld :
      (key : String) (end : ℕ) (deliveries : List Delivery) (db : Quotas) (keys : redis.Keys)
      → All (λ d. d.at < end) deliveries
      → IsHeld key end keys
      → IsHeld key end (process_all config redis deliveries db keys).1
  unfolding process_all
  process_all-IsHeld key end [] db keys early held = held
  process_all-IsHeld key end (d ∷ rest) db keys (first, others) held =
      let after = process_event config redis d db keys in
      process_all-IsHeld key end rest after.db after.keys others
        (process_event-IsHeld d db keys key end first held)

  -- An event that was handled without an error is not handled again: whatever deliveries follow, and
  -- whichever of them fail, as long as the day of its key lasts, a further delivery of it changes no
  -- row and dispatches nothing.
  pub process_event-process_all :
      (event : PaddleWebhookEvent) (now later : ℕ) (failure other_failure : Option Quotas)
      (deliveries : List Delivery) (db : Quotas) (keys : redis.Keys)
      → redis.held event.event_id now keys ≡ false
      → let first =
          process_event config redis
            (record { event = event; at = now; failure = failure })
            db
            keys in
        first.thrown ≡ false
        → All (λ d. d.at < now + idempotency_ttl_seconds * 1000) deliveries
        → later < now + idempotency_ttl_seconds * 1000
        → let (db', keys') = process_all config redis deliveries first.db first.keys in
          process_event config redis
            (record { event = event; at = later; failure = other_failure })
            db'
            keys'
          ≡ record { db = db'; keys = keys'; events = []; thrown = false }
  process_event-process_all event now later failure other_failure deliveries db keys free fine early
        before =
      let delivery : Delivery = record { event = event; at = now; failure = failure } in
      let first = process_event config redis delivery db keys in
      let rest = process_all config redis deliveries first.db first.keys in
      skips (record { event = event; at = later; failure = other_failure }) rest.0 rest.1
        (process_all-IsHeld event.event_id (now + idempotency_ttl_seconds * 1000) deliveries
          first.db first.keys early (holds delivery db keys free fine) later before)

  -- A delivery that threw, whatever its writes had changed by then, leaves the key free, so that the
  -- next delivery of the event is handled, whatever the rows are by then: if the database does not
  -- fail, it ends as the handler does on them.
  pub process_event_retry :
      (event : PaddleWebhookEvent) (now later : ℕ) (failure : Option Quotas) (db db1 db' : Quotas)
      (keys : redis.Keys) (events : List SubscriptionEvent)
      → let first =
          process_event config redis
            (record { event = event; at = now; failure = failure })
            db
            keys in
        first.thrown ≡ true
        → dispatch_handler config event.event_type event.data' later db1 ≡ handled db' events
        → let second =
            process_event config redis
              (record { event = event; at = later; failure = none })
              db1
              first.keys in
          (second.thrown ≡ false) × (second.db ≡ db') × (second.events ≡ events)
  process_event_retry event now later failure db db1 db' keys events failed done =
      let delivery : Delivery = record { event = event; at = now; failure = failure } in
      let first = process_event config redis delivery db keys in
      let free = releases delivery db keys failed in
      handles (record { event = event; at = later; failure = none }) db1 first.keys db' events
        (free later) done
