-- ===== src/Predicate.antt =====
-- pkg/algorithm/predicate: the predicates, which filter the nodes that a pod may be scheduled to.
pub mod Handler
pub mod DiskPressure
pub mod Affinity
pub mod NodeSelector
pub mod ConfigServer
pub mod Plugins
pub mod Routes
pub mod SelectorRoute
