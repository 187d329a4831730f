-- ===== src/Pipeline.antt =====
-- src/pipeline.rs: an event from the log that announces it to the frame that carries it.
pub mod Processor
pub mod Batcher
mod Examples
