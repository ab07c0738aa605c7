-- ===== src/Wire.antt =====
-- What the coordinator and the worker agree on without sharing code: the texts that one writes to
-- a Redis stream and the other reads.
pub mod Sketch
pub mod Jobs
pub mod Results
