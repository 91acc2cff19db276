-- ===== src/Notify.antt =====
-- The messages to the chat rooms and the tasks on images: qtasks/tasks.py.
pub mod Model
pub mod Queue
pub mod Cron
pub mod Send
pub mod Moved
pub mod Stuck
pub mod Images
pub mod Kept
mod Tests
