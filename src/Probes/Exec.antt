-- ===== src/Probes/Exec.antt =====
-- probes/exec.rs: a command is run, its exit code is checked, and its output is searched.
pub mod Config
pub mod Args
pub mod Group
pub mod Output
pub mod Child
