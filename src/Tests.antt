-- ===== src/Tests.antt =====
-- Runs of the theorems at concrete frames, metrics, devices and caches.
mod Frames
mod Metrics
mod Requests
mod Caches
mod Polls
mod Commands
mod Queues
mod Sockets
mod Specs
mod Samples
