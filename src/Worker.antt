-- ===== src/Worker.antt =====
-- The worker (worker/*.go).
pub mod Sketch
pub mod Job
pub mod Metrics
pub mod LoadGen
pub mod Queue
pub mod Startup
