-- ===== src/Tests.antt =====
-- The theorems at concrete inputs.
mod Searches
mod Columns
mod Vectors
mod Sockets
mod Pool
mod Tree
mod TreeResults
mod Operations
mod Sessions
mod Clients
