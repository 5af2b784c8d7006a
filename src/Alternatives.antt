-- ===== src/Alternatives.antt =====
-- app/services/alternatives.py: approved changes, the derived scenario, the search over it and what
-- is reported of it.
pub mod Changes
pub mod Derive
pub mod Deltas
pub mod Search
pub mod Approved
pub mod Refusals
pub mod Scope
pub mod Differences
pub mod Verified
pub mod Total
pub mod Storable
