-- ===== src/Tests.antt =====
-- Runs of the model at concrete inputs, and the theorems at inputs that meet their hypotheses.
mod Matching
mod Files
mod Expansions
mod Authorities
mod Arguments
mod Bodies
mod Outputs
mod Children
mod Connections
mod Certificates
mod Https
mod Verdicts
mod Entries
