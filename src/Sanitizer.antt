-- ===== src/Sanitizer.antt =====
-- sanitizer.py: from a Celery event or a broker sample to the event that leaves the process.
pub mod Coerce
pub mod Labels
pub mod Exceptions
pub mod Parts
pub mod Beat
pub mod Events
pub mod Snapshots
pub mod Inner
pub mod Urls
pub mod Credentials
