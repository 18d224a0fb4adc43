-- ===== src/Examples.antt =====
-- Runs of the theorems at concrete inputs.
mod Uris
mod Readers
mod Scopes
mod Buffered
mod Fuzz
