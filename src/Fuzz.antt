-- ===== src/Fuzz.antt =====
-- fuzz/fuzz_targets: the contracts that two fuzz targets check, run on any input.
pub mod Compose
pub mod Drive
pub mod Parse
pub mod Draws
pub mod Leaves
pub mod Opening
pub mod Joining
pub mod Composed
pub mod Composing
pub mod Reading
pub mod Landing
pub mod Driving
pub mod Passing
pub mod Contracts
pub mod Buffered
pub mod Buffering
