-- ===== src/Parser/Sound.antt =====
-- That the parser of internal/parser/parser.go accepts what its grammar says.
pub mod Reading
pub mod QuietSteps
pub mod Lists
pub mod Names
pub mod Slots
pub mod Atoms
pub mod Levels
pub mod Expr
