-- ===== src/Tcpman.antt =====
-- src/protocol/tcpman: what goes over a TCP connection to the server.
pub mod Request
pub mod Packets
