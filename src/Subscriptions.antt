-- ===== src/Subscriptions.antt =====
-- src/modules/subscriptions: the plans, the quotas that they set, and the subscription of a tenant.
pub mod Plans
pub mod Limits
pub mod Service
pub mod Upsert
pub mod Paddle
pub mod Addons
pub mod Webhook
mod Tests
