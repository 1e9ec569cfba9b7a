-- ===== src/Agent.antt =====
-- The agent that runs the proxy programs (internal/agent).
pub mod Sweep
pub mod Swept
pub mod Budget
pub mod Logs
pub mod Rotated
pub mod Journal
pub mod Forgotten
pub mod Refined
pub mod Lifecycle
pub mod Exit
pub mod Bounds
pub mod Exits
pub mod Steps
pub mod Restarts
pub mod Returns
pub mod Recovery
mod LogTests
mod Tests
