-- ===== src/Admission.antt =====
-- Two-level admission control: backend/leanstore/storage/two-level-admission-control.
pub mod Buckets
pub mod Sketch
pub mod SampleSet
pub mod Histogram
pub mod Candidates
pub mod Recency
pub mod Control
mod Tests
