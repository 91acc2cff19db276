-- ===== src/Build.antt =====
-- The builds of Jenkins: qtasks/tasks_build.py, with the start of a build in apps/deploy/ext_func.py.
pub mod Jenkins
pub mod Polling
pub mod Finish
pub mod Handle
pub mod Stop
pub mod Images
pub mod Kept
mod Tests
mod StartTests
