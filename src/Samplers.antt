-- ===== src/Samplers.antt =====
-- redis_sampler.py and inspect_sampler.py: periodic samples of queues and of workers.
pub mod Queues
pub mod Workers
pub mod Complete
