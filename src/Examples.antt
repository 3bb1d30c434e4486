-- ===== src/Examples.antt =====
-- Concrete inputs at which the theorems are applied, and tests of the definitions.
mod Format
mod Stores
mod Puts
mod Scans
mod Tasks
mod Threads
mod Requests
mod Rocks
mod Routes
mod Gateways
mod Vectors
mod Migrations
mod Searches
mod Discoveries
mod Configs
