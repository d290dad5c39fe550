-- ===== src/Drift.antt =====
-- backend/cs_uk_api/drift: the drift monitor, as baseline verdicts (Baseline), playback verdicts
-- (Playback) and the bookkeeping of a sweep (Monitor).
pub mod Playback
pub mod Baseline
pub mod Monitor
