-- ===== src/Server.antt =====
-- relay/main.go, relay/admin.go, relay/demoapi.go, relay/me.go and the sessions of relay/oidc.go: the
-- HTTP handlers over the queue, the store and the limiters.
pub mod Defs
pub mod Auth
pub mod Broker
pub mod Enroll
pub mod Admin
pub mod Serve
pub mod Grounds
pub mod Sessions
pub mod Routing
pub mod Enqueue
pub mod Revocation
pub mod Enrolled
pub mod Enrollment
pub mod Scopes
pub mod Tame
pub mod TameAdmin
pub mod TameAuth
pub mod TameServe
pub mod Surface
mod Sample
mod Tests
pub mod Policy
pub mod Waits
pub mod Login
pub mod Demo
pub mod Views
pub mod ViewLaws
pub mod DemoLaws
pub mod LoginLaws
