-- ===== src/Event.antt =====
-- event: the input queue of the operating system layer, and the input state that posts events.
pub mod Types
pub mod OsQueue
pub mod Input
pub mod Queue
