-- ===== src/Entry.antt =====
-- services/api/src/main.py: the requests that the entry point answers itself, but for the login.
pub mod Phone
pub mod Calls
pub mod Health
pub mod Placed
mod Tests
