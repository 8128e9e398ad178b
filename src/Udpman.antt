-- ===== src/Udpman.antt =====
-- src/protocol/udpman: the protocol that carries UDP connections over UDP datagrams.
pub mod Flags
pub mod Proto
pub mod ConnMap
pub mod Server
