-- ===== src/Tests.antt =====
-- Runs of the models at concrete inputs.
mod Fixtures
mod Registries
mod Tables
mod Answers
mod Waits
mod Streams
mod Listings
mod Prompts
mod Launches
mod Worktrees
mod Watches
mod Tailnets
mod Frames
mod Details
