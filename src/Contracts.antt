-- ===== src/Contracts.antt =====
-- src/relayna/contracts: the shapes of messages.
pub mod Aliases
pub mod Schemas
