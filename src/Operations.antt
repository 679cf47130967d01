-- ===== src/Operations.antt =====
-- The tracking of background operations: api/gem_api/models/operations.py and
-- api/gem_api/services/operations.py.
pub mod Model
pub mod Subscribers
pub mod World
pub mod Manager
pub mod Logs
pub mod Streams
