-- ===== src/Utils.antt =====
-- morello/src/utils.rs: the numeric helpers.
pub mod Bits
pub mod Ranges
pub mod Boxes
pub mod Endings
pub mod Points
pub mod Visits
mod Tests
