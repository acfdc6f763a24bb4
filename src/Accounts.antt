-- ===== src/Accounts.antt =====
-- services/api: the tenants, their users and the tokens that stand for a user. The children hold the parts.
pub mod Models
pub mod Tokens
pub mod Login
pub mod Scope
pub mod Sessions
pub mod Columns
pub mod Encoding
