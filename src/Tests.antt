-- ===== src/Tests.antt =====
-- Runs of the model at concrete inputs.
mod Demo
mod Tasks
mod Semaphores
mod Timers
mod Queues
mod Events
mod Systems
mod Waits
mod Clocks
mod Ports
mod Threads
