-- ===== src/Algorithm.antt =====
-- pkg/algorithm
pub mod PodInfo
pub mod HostPath
