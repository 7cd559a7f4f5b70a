-- ===== src/Tests.antt =====
-- The tests, and each property at a concrete input.
mod Database
mod Documents
mod Moves
mod Labels
mod Texts
mod Services
mod Settings
mod Listings
mod Mirrors
mod Agents
mod Commands
mod Syncs
mod Extensions
