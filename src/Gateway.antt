-- ===== src/Gateway.antt =====
-- services/voice-gateway: the telephony callback, the sessions and the clients of the internal API. The
-- children hold its parts.
pub mod Redis
pub mod Sessions
pub mod Turns
pub mod CallStore
pub mod Recorder
pub mod Payload
pub mod Clients
pub mod Callback
pub mod Replays
pub mod Redeliveries
pub mod Outcomes
pub mod Starts
pub mod Endings
pub mod Access
pub mod Available
mod CallbackTests
