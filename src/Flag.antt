-- ===== src/Flag.antt =====
-- cppkg/flag: command lines. The parser, the descriptions of options and the values are those of
-- `boost::program_options`, which is not part of the repository.
pub mod FlagSet
pub mod Usage
pub mod Args
pub mod Parse
mod Tests
