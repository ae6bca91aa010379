-- ===== src/Orders.antt =====
-- src/modules/orders: the life of an order.
pub mod Status
pub mod Transaction
pub mod Employees
pub mod Resources
pub mod Events
pub mod Create
pub mod Changes
pub mod Maintenance
pub mod Safety
pub mod Fixture
mod Tests
