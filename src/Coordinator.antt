-- ===== src/Coordinator.antt =====
-- The coordinator (coordinator/*.go): one module for each file that keeps state or decides.
pub mod Jobs
pub mod Sketch
pub mod Persister
pub mod DomainStore
pub mod AuthState
pub mod UserStore
pub mod Snapshot
pub mod TestStore
pub mod Enqueue
pub mod History
pub mod Postgres
pub mod Api
pub mod CreateTest
pub mod Verify
pub mod Login
pub mod Reports
pub mod ResultWatcher
pub mod Live
pub mod Badge
pub mod Routes
pub mod GithubAuth
pub mod Setup
pub mod Capacity
