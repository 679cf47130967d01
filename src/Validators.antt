-- ===== src/Validators.antt =====
-- api/gem_api/models/validators.py: sanitizing and checking the fields of requests.
pub mod Patterns
pub mod Errors
pub mod Sanitize
pub mod Zone
pub mod Names
pub mod Addresses
pub mod Networks
