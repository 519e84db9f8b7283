-- ===== src/Rpc.antt =====
-- rpc/server.go: the JSON-RPC and REST interface of the node.
pub mod Types
pub mod Views
pub mod Dispatch
pub mod Http
pub mod Rest
pub mod Sockets
pub mod Frame
pub mod Sent
pub mod Numbers
pub mod Stray
pub mod Answers
pub mod Bodies
pub mod Recent
pub mod Queues
pub mod Delivery
pub mod Announced
pub mod Inserted
pub mod Node
pub mod Metrics
pub mod Jails
mod Tests
