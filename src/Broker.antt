-- ===== src/Broker.antt =====
-- maais/execution/paper/broker.py: the local broker, which composes authorization, filters, orders,
-- fills, the account and the exit plan. The hash of a command's canonical JSON is a parameter, and
-- the JSON market snapshot of a stored fill is left out.
pub mod Commands
pub mod Entering
pub mod Leaving
pub mod Steps
pub mod Entry
pub mod Closing
pub mod Exit
mod Tests
