-- ===== src/Tests.antt =====
-- Runs of the model on concrete inputs, and the theorems at such inputs.
mod Layers
mod Stacks
mod Caches
mod Times
mod Ticks
mod Names
mod Watchers
mod Walks
mod Handlers
mod Clears
mod Reads
