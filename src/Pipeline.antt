-- ===== src/Pipeline.antt =====
-- From a line of the log to the parsers and the bus (core/pipeline.py, core/bus.py).
pub mod Chain
pub mod Bus
pub mod Dispatch
