-- ===== src/Pipeline.antt =====
-- The analysis pipeline, internal/pipeline.
pub mod Scrub
pub mod Convert
pub mod Steps
pub mod Runs
pub mod Start
