-- ===== src/Risk.antt =====
-- maais/risk/official.py: the sizing of an approved trade behind an ordered chain of gates. JSON
-- snapshots and content hashes are left out.
pub mod Inputs
pub mod Engine
pub mod Sizing
pub mod Correlation
pub mod Acceptable
pub mod Multipliers
pub mod Amounts
pub mod Chain
pub mod Approval
pub mod Bounds
pub mod Validated
mod Tests
