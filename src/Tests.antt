-- ===== src/Tests.antt =====
-- Runs at concrete inputs, and the theorems at inputs that meet their hypotheses.
mod Config
mod Requests
mod Queries
mod Managers
mod Daemon
mod Threads
mod Registries
mod AtOnce
mod Statistics
mod Walks
mod Command
mod Crews
mod Services
