-- ===== src/Tracer.antt =====
-- tracer.go, part by part: the state and its guards, the hooks, and what they keep.
pub mod State
pub mod Changes
pub mod Calls
pub mod Transactions
pub mod Completion
pub mod SystemCalls
pub mod Headers
pub mod Blocks
pub mod Parallel
pub mod Lifecycle
