-- ===== src/Detect.antt =====
-- internal/coldetect and the detector of internal/server/coldetect.go: the columns that are
-- recommended for a source.
pub mod Sampler
pub mod Recommend
pub mod Bounds
pub mod Observed
pub mod Detector
pub mod Closing
pub mod Ranking
pub mod Orderless
