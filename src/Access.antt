-- ===== src/Access.antt =====
-- Who may call what: common/extends/permissions.py.
pub mod Rbac
pub mod Methods
pub mod Grant
mod Tests
