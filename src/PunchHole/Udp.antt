-- ===== src/PunchHole/Udp.antt =====
-- PunchHole/p2p_transfer_udp: the server and the peer over datagrams.
pub mod Server
pub mod Peer
pub mod Rendezvous
