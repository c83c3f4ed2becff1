-- ===== src/Algorithm/HostPath.antt =====
-- pkg/algorithm/hostpathpv.go: what a persistent volume is, where it is mounted, which pods use it
-- and how large it is.
mod Kinds
mod Capacity
mod Usage
mod NodeMountInfo
pub mod CapacityLaws
pub mod Mounts
pub mod FreeItem
pub mod Users
unfoldable pub use Kinds.*
unfoldable pub use Capacity.*
unfoldable pub use Usage.*
unfoldable pub use NodeMountInfo.*
