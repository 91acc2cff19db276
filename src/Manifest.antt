-- ===== src/Manifest.antt =====
-- template_generate of common/ext_fun.py: the Deployment that is sent to Kubernetes.
pub mod Merge
pub mod Precedence
pub mod Pieces
pub mod Env
pub mod Owned
pub mod Health
pub mod Generate
mod Tests
