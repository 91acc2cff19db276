-- ===== src/Deploy.antt =====
-- The deployment of an application to its Kubernetes clusters: qtasks/tasks_deploy.py.
pub mod Model
pub mod Flow
pub mod Ones
pub mod Stages
pub mod Orders
pub mod Clusters
pub mod Verdict
pub mod Release
pub mod Check
pub mod Running
pub mod Hosts
pub mod Spread
pub mod Live
pub mod Voiding
mod Tests
mod HostTests
