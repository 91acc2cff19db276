-- ===== src/Users.antt =====
-- Users, their menus and their log-in: apps/ucenter/views.py and apps/ucenter/serializers.py.
pub mod Menus
pub mod Routers
pub mod Accounts
pub mod Bound
mod Tests
