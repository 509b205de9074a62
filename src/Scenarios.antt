-- ===== src/Scenarios.antt =====
-- Concrete runs of the parts, with concrete services in place of those that are parameters.
pub mod Reservations
pub mod Stores
pub mod Containers
pub mod Requests
pub mod Sandboxes
pub mod Recovery
pub mod Logs
pub mod Images
pub mod Writers
pub mod Removal
pub mod Creation
pub mod Updates
pub mod Listings
pub mod Startup
pub mod Monitor
pub mod Mounting
