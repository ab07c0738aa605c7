-- ===== src/Examples.antt =====
-- The properties at concrete inputs, and small runs of the code.
pub mod World
mod Load
mod Runs
mod Sketches
mod Identity
mod Watch
mod Database
mod Queue
mod Publish
mod Following
mod Metrics
mod Requests
