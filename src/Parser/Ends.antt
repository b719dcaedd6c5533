-- ===== src/Parser/Ends.antt =====
-- That the parser of internal/parser/parser.go ends on every token list.
pub mod Bounds
pub mod Advances
pub mod Keeps
pub mod Levels
pub mod Lists
pub mod Names
pub mod SlotTokens
pub mod Slots
pub mod Atoms
pub mod Suffixes
pub mod Expr
