-- ===== src/Exec.antt =====
-- internal/interpreter/interpreter.go: statements, their control flow, deferred calls, errors and
-- the calls of methods. Values cannot be mutated here, so that copies, borrows and moves are the
-- value itself; the profiler, the diagnostics and the accounting of copied bytes have no part.
pub mod Syntax
pub mod Machine
pub mod Update
pub mod Errors
pub mod Ranges
pub mod Simple
pub mod Control
pub mod Calls
pub mod Run
pub mod Logic
pub mod Places
pub mod Related
pub mod Lazy
pub mod Kept
pub mod Safety
pub mod Outcomes
pub mod Flows
pub mod Halts
pub mod Finish
pub mod Stored
pub mod Paths
pub mod Appended
pub mod Typed
pub mod Examples
pub mod Tests
