-- ===== src/Tests.antt =====
-- Runs of the modelled code at fixed inputs, each through a theorem of the library.
mod Data
mod Validation
mod Managing
mod Logs
mod Requests
mod Kubernetes
mod Fleet
mod Running
