-- ===== src/Calls.antt =====
-- services/api/src/routers/internal.py: the call lifecycle that the voice gateway reports. Each request
-- is carried out alone. The children hold its parts.
pub mod Token
pub mod Reasons
pub mod Handlers
pub mod Ends
pub mod Lifecycle
mod Tests
