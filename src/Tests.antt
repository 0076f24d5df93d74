-- ===== src/Tests.antt =====
-- The theorems at concrete inputs: a small cluster, requests to it, and a simulated node.
pub mod Data
pub mod Texts
pub mod Formats
pub mod Databases
pub mod Snapshots
pub mod Stores
pub mod Controllers
pub mod Rounds
pub mod Reports
pub mod Requests
pub mod Tokens
pub mod Joining
pub mod Reaching
pub mod Agents
