-- ===== src/Prioritize.antt =====
-- pkg/algorithm/prioritize: the priorities, which give the nodes for a pod a score each.
pub mod Float
pub mod Scoring
pub mod Spread
pub mod DiskUse
pub mod Handler
pub mod Plugins
pub mod Routes
