-- ===== src/Adapters.antt =====
-- bridge/adapters: the requests that become one or two runs of a command-line tool.
pub mod Json
pub mod Defs
pub mod Run
pub mod Backends
pub mod SpanLaws
pub mod Fences
pub mod Runs
pub mod Outcomes
pub mod Models
pub mod ModelLaws
mod Tests
