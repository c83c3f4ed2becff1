-- ===== src/Main.antt =====
-- pkg/main.go: the run modes, the initialisation of the two packages, the wait for the informers, and
-- the services of the extender. What client-go does is a parameter.
mod Environment
pub mod Start
pub mod Relied
pub mod Serving
pub mod Exits
unfoldable pub use Environment.*
unfoldable pub use Start.*
