-- ===== src/ActiveProbes.antt =====
-- active_probes.py, capabilities.py and redis_result_probe.py: read-only probes, and their answers.
pub mod AppFacts
pub mod Capabilities
pub mod Requests
pub mod Matching
pub mod Answers
pub mod Handlers
pub mod Capacity
pub mod Executor
pub mod Absence
pub mod Foreign
pub mod Resolve
