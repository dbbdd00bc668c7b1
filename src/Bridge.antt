-- ===== src/Bridge.antt =====
-- The package bridge: VM names (vm.go), slots (capacity.go), liveness of workers (worker.go),
-- label matching, per-host sizing (autosize.go), the shared cache of Orchard's state
-- (stateview.go), the scaler of one scale set (bridge.go) and the clean-up loop (cleanup.go).
pub mod Name
pub mod Script
pub mod Capacity
pub mod Live
pub mod Labels
pub mod AutoSize
pub mod Services
pub mod StateView
pub mod Fleet
pub mod Journal
pub mod Owned
pub mod Growth
pub mod ScaleUp
pub mod AutoScaleUp
pub mod Scaler
pub mod Cleanup
pub mod Prune
pub mod Eligibility
pub mod Sweep
pub mod System
