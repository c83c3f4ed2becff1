-- ===== src/Tests.antt =====
-- Runs of the model at concrete data, and its theorems at data that meets their hypotheses.
pub mod Samples
pub mod Parser
pub mod Predicates
pub mod HostPaths
pub mod Plugins
pub mod Scores
pub mod Selectors
pub mod Servers
pub mod Client
pub mod Program
pub mod Routes
pub mod Sharing
