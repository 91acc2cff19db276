-- ===== src/Launch.antt =====
-- The start of a deployment: app_deploy_handle and deploy_handle of apps/deploy/ext_func.py and the
-- views of DeployJobViewSet in apps/deploy/views.py.
pub mod Model
pub mod Payload
pub mod Handle
pub mod Views
pub mod Whole
pub mod Reset
mod Tests
