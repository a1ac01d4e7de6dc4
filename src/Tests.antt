-- ===== src/Tests.antt =====
-- Runs at concrete inputs: each theorem about the program, applied where its conditions hold.
mod Fixed
mod Pcs
mod Phold
mod Highway
mod Scene
mod Slots
mod Speculation
mod Rollback
mod Epochs
mod Memory
mod Models
mod Workers
mod Pages
mod Barriers
mod Chunks
mod Versions
mod Grids
