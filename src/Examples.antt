-- ===== src/Examples.antt =====
-- Concrete inputs, and runs of the program on them.
pub mod World
pub mod Tags
pub mod Wire
pub mod Printing
pub mod Streams
pub mod Editors
pub mod Sessions
pub mod Requests
pub mod Registries
pub mod Connections
pub mod Trees
pub mod Peers
pub mod Proxies
pub mod Starting
pub mod Answers
pub mod Sockets
pub mod Systems
