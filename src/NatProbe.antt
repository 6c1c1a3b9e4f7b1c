-- ===== src/NatProbe.antt =====
-- NatProbe: the probe of a router's NAT type, its client and its server.
pub mod Types
pub mod Dns
pub mod Server
pub mod Client
