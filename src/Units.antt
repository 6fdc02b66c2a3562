-- ===== src/Units.antt =====
-- cppkg/units: numbers of seconds and bytes for people to read.
pub mod Time
mod Tests
pub mod Memory
