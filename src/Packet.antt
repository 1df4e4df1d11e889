-- ===== src/Packet.antt =====
-- include/flowq/quic/packet_header.hpp: packet numbers and packet headers.
pub mod Number
pub mod Header
