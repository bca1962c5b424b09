-- ===== src/Client.antt =====
-- src/client.rs: the tasks of one client connection.
pub mod Output
pub mod Task
pub mod Workspace
pub mod Connect
pub mod Joining
pub mod Roots
