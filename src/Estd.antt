-- ===== src/Estd.antt =====
-- cppkg/estd: extensions of the standard library.
pub mod UnorderedMap
pub mod Contain
pub mod Config
pub mod HashList
pub mod Strings
pub mod Ranges
mod Tests
