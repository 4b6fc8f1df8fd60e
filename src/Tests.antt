-- ===== src/Tests.antt =====
-- Runs of the functions on concrete inputs, and the theorems applied to them.
pub mod Fixtures
pub mod KernelRuns
pub mod MutexRuns
pub mod QueueRuns
pub mod QueueSystemRuns
pub mod SemaphoreRuns
pub mod SerialRuns
pub mod HostRuns
pub mod OsiRuns
pub mod FeedRuns
pub mod BootRuns
pub mod FaultRuns
pub mod BoardRuns
pub mod GuiRuns
pub mod SceneRuns
pub mod RendererRuns
pub mod SwitchRuns
