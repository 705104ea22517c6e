-- ===== src/Examples.antt =====
-- Concrete instances of what the development takes as parameters, and the theorems at inputs that
-- meet their hypotheses.
pub mod Codes
pub mod Toy
pub mod Wire
pub mod People
mod NameCases
mod ProtoCases
mod PolicyCases
mod StoreCases
mod ConflictCases
pub mod ModerationWire
mod ModerationCases
pub mod Tables
pub mod LogCases
mod HidingCases
mod ChallengeCases
pub mod PeerCases
pub mod ToyCiphers
pub mod SyncWire
mod KeyCases
pub mod SyncCases
mod AdmissionCases
pub mod TransferCases
mod DiscoveryCases
mod McpCases
