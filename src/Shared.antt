-- ===== src/Shared.antt =====
-- Functions of common/ext_fun.py that many parts of the program call.
pub mod Dict
pub mod Json
pub mod Mask
pub mod Nodes
pub mod Compare
pub mod Config
pub mod Period
pub mod Words
mod Tests
