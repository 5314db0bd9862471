-- ===== src/Net.antt =====
-- net/connection: the framing of messages on a stream socket, sent and received.
pub mod Socket
pub mod SendNode
pub mod MessageReads
pub mod Connection
