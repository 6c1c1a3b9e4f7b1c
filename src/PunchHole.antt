-- ===== src/PunchHole.antt =====
-- PunchHole: peers behind NATs that find one another through a server, over UDP and over TCP.
pub mod Wire
pub mod Common
pub mod Registry
pub mod Udp
pub mod Tcp
