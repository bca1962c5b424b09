-- ===== src/Session.antt =====
-- One instance with its clients, as a step relation.
pub mod Clients
pub mod Files
pub mod Steps
pub mod Runs
pub mod Handlers
pub mod Invariant
pub mod Routing
pub mod ServerRequests
pub mod Documents
pub mod Configuration
pub mod Keys
pub mod Identity
pub mod Turns
pub mod Loop
pub mod Notifications
