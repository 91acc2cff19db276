-- ===== src/Guards.antt =====
-- The checks in front of the requests that build and deploy: common/extends/decorators.py.
pub mod Branch
pub mod Release
pub mod Allowed
pub mod Timely
pub mod Expiry
mod Tests
