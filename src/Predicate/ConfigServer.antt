-- ===== src/Predicate/ConfigServer.antt =====
-- pkg/algorithm/predicate/namespaces_nodeselector_httpserver.go: the server of the node selector's
-- configuration.
mod Change
mod Policy
mod Refresh
mod Update
mod Listing
mod Requests
pub mod ListingLaws
pub mod RefreshLaws
pub mod Pointers
pub mod Reads
pub mod Known
pub mod Runs
pub mod Shared
pub mod CheckLaws
pub mod UpdateLaws
pub mod Visible
pub mod EditLaws
unfoldable pub use Change.*
unfoldable pub use Policy.*
unfoldable pub use Refresh.*
unfoldable pub use Update.*
unfoldable pub use Listing.*
unfoldable pub use Requests.*
