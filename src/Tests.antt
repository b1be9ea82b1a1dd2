-- ===== src/Tests.antt =====
-- Runs of the model at concrete inputs.
pub mod ControllerRuns
pub mod QueueRuns
pub mod LidarRuns
pub mod RuntimeRuns
pub mod ParseRuns
pub mod PreflightRuns
pub mod SdkRuns
pub mod NodeRuns
