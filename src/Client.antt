-- ===== src/Client.antt =====
-- HareMQ/mqclient: the client library and the interactive client.
pub mod Channel
pub mod Connection
pub mod Command
mod Waiting
mod Rpc
mod Remote
mod Tests
