-- ===== src/Orders/Safety.antt =====
-- Double bookings: what it is for the table of orders to have none, and, in the children, what each
-- operation of the orders service does to that.
pub mod Create
pub mod Changes
pub mod Moves
pub mod Restore
mod Maintenance
pub mod Service
use wash_flow.Prelude.{List}
use wash_flow.Database.{Order}
use wash_flow.Occupancy.{work_post, employee}
use wash_flow.Occupancy.Apart.{Apart}

pub record IsSafe (os : List Order) : Type 0 where
  pub posts : Apart work_post os
  pub employees : Apart employee os
