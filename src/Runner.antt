-- ===== src/Runner.antt =====
-- ProcessRunner of api/gem_api/services/runner.py.
pub mod Location
pub mod Context
pub mod Decoding
pub mod Output
pub mod Machine
pub mod Execute
pub mod Pipelines
pub mod Along
pub mod Leads
pub mod Keeps
pub mod Ends
pub mod Success
