-- ===== src/Workflow.antt =====
-- The ticket engine: apps/workflow and dbapp/model/model_workflow.py.
pub mod Model
pub mod LifeCycle
pub mod Callback
pub mod Views
pub mod Upcoming
pub mod Movement
pub mod Placed
pub mod Countersign
pub mod Resubmit
pub mod Tables
pub mod Passing
pub mod Reopen
pub mod Start
pub mod Create
pub mod Opened
pub mod Second
pub mod Waiting
pub mod Hooks
pub mod Retried
pub mod Commits
pub mod Reach
mod Tests
mod StartTests
mod CreateTests
mod HookTests
