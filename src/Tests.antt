-- ===== src/Tests.antt =====
-- Concrete data and runs, and the theorems at concrete inputs.
mod Sample
mod Chain
mod Network
mod Exchange
mod Discovery
mod Lists
mod Mains
mod Frees
mod Meeting
mod Mining
mod Threads
mod Files
mod Programs
mod Honest
mod Sweep
