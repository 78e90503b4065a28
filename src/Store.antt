-- ===== src/Store.antt =====
-- relay/store.go: the control-plane store. `Records` holds its data; `Users`, `Credentials` and `Audit`
-- its methods.
pub mod Records
pub mod Users
pub mod Credentials
pub mod Audit
pub mod AuditOrder
pub mod Hits
pub mod HitLaws
pub mod Stats
pub mod StatsLaws
pub mod Laws
pub mod Policy
mod Tests
