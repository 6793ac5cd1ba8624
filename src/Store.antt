-- ===== src/Store.antt =====
-- internal/storage/store: the registry's state, its operations and its file on disk.
pub mod Records
pub mod Io
pub mod Sandboxes
pub mod Registry
pub mod Auth
pub mod Sessions
pub mod Proposals
pub mod Workspaces
pub mod Revisions
pub mod Attachment
pub mod Validity
pub mod Tokens
pub mod Decisions
pub mod Members
pub mod Ops
mod Tests
pub mod Durability
pub mod Errors
pub mod WellFormed
