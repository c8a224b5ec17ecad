-- ===== src/Artifacts.antt =====
-- artifact-schema.ts and source-schema.ts: the validation of run artifacts.
pub mod Json
pub mod Fields
pub mod Safety
pub mod Completions
pub mod Outcomes
pub mod Steps
pub mod Pairs
pub mod Stages
pub mod FlushStages
pub mod Cancels
pub mod Environment
pub mod Limits
pub mod Source
pub mod Serialize
pub mod Plan
pub mod Trace
pub mod Parts
pub mod Parse
mod Samples
mod Tests
mod TraceTests
mod SourceTests
