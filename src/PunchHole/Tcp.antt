-- ===== src/PunchHole/Tcp.antt =====
-- PunchHole/p2p_transfer_tcp: the server and the peer over connections.
pub mod Server
pub mod Peer
