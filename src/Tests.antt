-- ===== src/Tests.antt =====
-- Runs of the model on small inputs.
mod Inputs
mod Texts
mod Sessions
mod Commands
mod Setup
mod Helper
mod Polls
mod Restored
mod Servers
mod Threads
mod Unregistered
mod Walks
mod Messages
mod Watch
mod Worlds
mod Settings
