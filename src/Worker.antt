-- ===== src/Worker.antt =====
-- services/worker and services/integration-service: the jobs are claimed, processed and reported. The
-- children hold the parts.
pub mod Integration
pub mod Clients
pub mod Loop
pub mod Runs
pub mod Deliveries
pub mod Acks
mod Earned
mod Tests
