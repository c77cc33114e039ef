-- ===== src/Examples.antt =====
-- Runs of the definitions on small inputs.
mod Stack
mod Bits
mod Chunks
mod Pools
mod Texts
mod Sets
mod Races
mod Ends
mod Systems
mod Threads
