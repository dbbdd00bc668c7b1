-- ===== src/Tests.antt =====
-- Runs of the code on small inputs, and the theorems at concrete inputs.
pub mod Data
mod Sizing
mod Names
mod Client
mod Scaling
mod Running
mod Sweeping
mod Settings
mod Viewing
mod Managing
mod Reporting
mod Calling
mod Gauging
