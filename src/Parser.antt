-- ===== src/Parser.antt =====
-- internal/parser/parser.go: expressions. Syntax has the trees, Kinds the tests on tokens, State what a
-- parser runs on; Numbers, Operators, Lists, Names, Slots, Atoms and Expr the functions of the parser.
-- Ladder and Grammar are the grammar; Ends and Sound are about the parser.
pub mod Syntax
pub mod Kinds
pub mod State
pub mod Numbers
pub mod Operators
pub mod Lists
pub mod Names
pub mod Slots
pub mod Atoms
pub mod Expr
pub mod Ladder
pub mod Grammar
pub mod Chains
pub mod Ends
pub mod Sound
pub mod Tests
pub mod Examples
