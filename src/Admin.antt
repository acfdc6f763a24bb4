-- ===== src/Admin.antt =====
-- services/api/src/routers/admin.py: the administration of tenants, users, calls and audit rows. The children
-- hold the parts.
pub mod Access
pub mod Audit
pub mod Clients
pub mod Tenants
pub mod Users
pub mod Logs
pub mod Members
pub mod Emails
pub mod Deletions
pub mod Trails
pub mod Unserved
pub mod AuditRows
pub mod Audited
pub mod Isolation
mod Tests
