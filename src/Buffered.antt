-- ===== src/Buffered.antt =====
-- src/buffered.rs: a reader that reads ahead. A worker thread owns the inner source and fills a ring
-- of bytes; the reader takes bytes from the ring. What each does while it holds the lock is one
-- function; `System` interleaves them.
pub mod Ring
pub mod Builder
pub mod Reader
pub mod Worker
pub mod System
pub mod Copy
pub mod Knobs
pub mod Invariant
pub mod Rounds
pub mod Working
pub mod Moves
pub mod Contract
pub mod Seeking
pub mod Steps
pub mod Serving
pub mod Reachable
pub mod Progress
pub mod Stopping
pub mod Waking
pub mod Sticky
pub mod Cases
pub mod Lookback
pub mod Attempts
pub mod Reasons
pub mod Delivery
pub mod Replying
pub mod Prompt
pub mod Blocking
pub mod Completing
pub mod Sequential
