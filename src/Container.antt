-- ===== src/Container.antt =====
-- The life of a container: pkg/store/container and the handlers of pkg/server that move it between
-- its states.
pub mod Status
pub mod Transitions
pub mod Exit
pub mod Start
pub mod Concurrency
pub mod Remove
pub mod Stop
pub mod Load
pub mod Create
pub mod Update
