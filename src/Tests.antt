-- ===== src/Tests.antt =====
-- Concrete inputs, on which the theorems are applied and the definitions run.
pub mod Samples
mod TransportRuns
mod MessageProbeRuns
pub mod SanitizerRuns
mod ProbeRuns
mod ConfigRuns
mod SamplerRuns
mod ReceiverRuns
pub mod AppRuns
mod ReplayRuns
mod BeatRuns
mod ServiceRuns
mod CliRuns
