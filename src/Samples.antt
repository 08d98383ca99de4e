-- ===== src/Samples.antt =====
-- Runs of the model at concrete inputs, and its theorems applied to them.
mod Jobs
mod Batches
mod Events
mod Calls
mod Running
mod Startup
mod Watching
mod Purges
mod Stored
