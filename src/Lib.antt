-- ===== src/Lib.antt =====
-- WashFlow: the booking core of a multi-tenant car wash service.
--
-- The program is a NestJS server over PostgreSQL. A client books a wash: the orders service checks
-- the request, finds a work post and an employee that are free, and writes the order, all in one
-- serializable transaction that is tried again on a conflict. Later calls move the order, change its
-- status, delete and restore it, and take payments for it. A request that carries an idempotency key
-- may be repeated. This library models that core and what makes it correct.
--
-- What models what (paths from the repository's root):
-- - Database: the rows of prisma/schema.prisma that the services below read and write, and the table
--   of all of them, Db.
-- - Common: src/common/utils. CircuitBreaker (circuit-breaker.ts: fire, onSuccess, onFailure),
--   BookingSettings (resolveBookingSettings), BranchDay (branch-day.util.ts), WorkingWindow
--   (workingWindowForInterval), and Zones, the interface of date-fns-tz.
-- - Idempotency: src/modules/idempotency, the request-bound keys: requestIdentity, readRequestTx,
--   claimRequestTx, saveRequestTx; and in Cache the older cache of responses.
-- - Occupancy and Scheduling: src/modules/scheduling, when an order holds a resource, and the
--   reservation of a work post (reserveSlot). Occupancy/Apart states that no resource is held twice,
--   Occupancy/Updates how rows may change under that. Scheduling/Queries and Scheduling/Availability
--   model checkAvailability: Availability/Grid is about where its slots lie, Availability/Reserves about
--   booking them.
-- - Orders: src/modules/orders. Status (order.types.ts), Transaction (runReservationTransaction),
--   Employees (reserveEmployee), Resources (reserveResources, resolveWorkPost), Events, Create
--   (create; its checks and prices in Create/Checks), Changes (reschedule in Changes/Moves,
--   updateStatus, softDelete, restore), Maintenance (the writes of orders elsewhere: the timeout of a
--   confirmation in src/modules/jobs, the cleanup in src/modules/cleanup, the merge of clients in
--   src/modules/clients), and Safety, which puts them together as histories of calls.
-- - Payments: src/modules/payments (create, findByOrderId).
-- - Subscriptions: src/modules/subscriptions. Plans (plan.constants.ts), Limits (the quota check of
--   subscriptions.repository.ts and subscription-limits.service.ts), Service (the limits that
--   subscriptions.service.ts computes, its downgrade check, cancellation and reactivation), Upsert
--   (its upsert and delete), Paddle (the price ids and the items sent to Paddle), Addons (the rows of
--   add-ons, changePlan and manageAddon), and Webhook (paddle-webhook.service.ts: the payload and the
--   sync of add-ons; Webhook/Handlers has a handler for each event, Webhook/Deliveries processEvent).
-- - TenantPrisma: src/prisma/tenant-prisma.service.ts, the rewriting of the arguments of the fifteen
--   operations that forTenant has a case for. createManyAndReturn and updateManyAndReturn, which
--   nothing in the repository calls, have none and pass as they are. The other modules write out the
--   where clauses that the rewriting leaves.
-- - PublicBooking: src/modules/public-booking (the matching of a client and a vehicle; later
--   bookings of the same client in PublicBooking/Matching; createBooking in PublicBooking/Booking, with
--   replayPublicBooking of the orders service; checkAvailability in PublicBooking/Availability).
-- - Auth: src/modules/auth (login, refreshTokens and logout in Auth/Sessions, the calls about passwords
--   in Auth/Passwords; Auth/Revoked has the histories of these calls, Auth/Lockout runs of wrong
--   guesses, Auth/Resets a login after a reset).
-- - Guards: src/common/guards (the guards of tenants, permissions, super administrators and payments).
-- - Prelude: lists and tests over the native numbers, and Result, a call that may throw.
--
-- How the state is read. A table is a list of rows, and a query is its where clause over that list. A
-- call takes the database and gives the one it leaves. A transaction that commits runs alone, which is
-- what the isolation level Serializable, or the lock on the parent row that the code takes, gives; one
-- that fails leaves the database as it was. The handlers of webhooks write outside transactions, so a
-- failure there is an argument that holds the rows left behind. Which attempts the database lets
-- commit is a parameter (engine). Row locks change no row and are left out.
--
-- How values are read. Identifiers are numbers, since the code only compares them; a new row's
-- identifier is an argument. Instants are milliseconds since the earliest Date, so subtraction never
-- meets its floor on a date that exists; times of day are minutes, days are day numbers, money is in
-- cents. A call reads the clock once. Messages leave out the values that they interpolate.
--
-- What stands outside and is a parameter: the time zone database (Zones, where it matters with the
-- hypothesis that offsets are whole minutes), Redis (KeyStore, with the hypotheses IsKeyStore on its
-- SET … NX and DEL), how a call of Paddle ends, SHA-256, argon2, the JSON text of a
-- payload, and the paths of requests.
--
-- Fuel. The walk of workingWindowForInterval gets one round for each minute of UTC that the interval
-- meets and two more, since each round but the last moves on to the next minute. The retry loop gets
-- as many rounds as it has attempts, since each round is one attempt. The slots of a day get one round
-- for each minute of it and one more, since a slot takes at least a minute.
--
-- Not modelled: the schedule, the public lists of services and branches, the signature of Paddle's
-- webhooks (an HMAC over their raw text), the checkout and the previews of subscriptions,
-- registration, rate limits, the CRUD of the other tables, reports, e-mail, audit and jobs, and the
-- two frontends. The constants and calls of the libraries (NestJS, Prisma, ioredis) are not code of
-- this repository.
pub mod TenantPrisma
pub mod PublicBooking
pub mod Auth
pub mod Guards
pub mod Prelude
pub mod Common
pub mod Database
pub mod Idempotency
pub mod Occupancy
pub mod Scheduling
pub mod Orders
pub mod Payments
pub mod Subscriptions
