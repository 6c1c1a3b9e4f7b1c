-- ===== src/Tests.antt =====
-- Concrete systems, C libraries and tables, and the theorems at them.
mod Systems
mod Probe
mod Transfer
mod Tcp
mod Store
mod Files
mod Logs
