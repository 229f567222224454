-- ===== src/Model.antt =====
-- apps/backend/models: the rows of the tables that the modelled services read and write.
mod Accounts
mod Scans
mod Approvals
mod Audit
mod Keys
mod Identities
mod Tables
pub use Accounts.*
pub use Scans.*
pub use Approvals.*
pub use Audit.*
pub use Keys.*
pub use Identities.*
pub use Tables.*
