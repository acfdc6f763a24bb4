-- ===== src/Portal.antt =====
-- services/api/src/routers/client.py: what the users of a tenant may see and do. The children hold the parts.
pub mod Access
pub mod Calls
pub mod Directory
pub mod Customers
pub mod Contacts
pub mod Tenancy
pub mod Listings
pub mod Upserts
pub mod Refreshes
pub mod Patches
pub mod Statistics
mod Tests
