-- ===== src/Probes.antt =====
-- probes/: one module for each kind of probe.
pub mod File
pub mod Http
pub mod Exec
pub mod Tcp
pub mod Grpc
