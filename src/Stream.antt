-- ===== src/Stream.antt =====
-- include/flowq/quic/stream.hpp: the streams of a connection.
pub mod Send
pub mod SendSet
pub mod ReceiveSet
pub mod Receive
