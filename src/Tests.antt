-- ===== src/Tests.antt =====
-- Runs of the modelled code on concrete inputs, and each theorem at such an input.
mod Sorting
mod Matrices
mod Loops
mod Buffers
mod Texts
mod Threads
mod Films
mod Counters
mod Optimized
mod Linked
mod Insertion
mod Pools
mod Locks
mod Processes
mod Benchmark
mod Samples
mod Serving
mod Typing
mod Numbering
mod Echoing
mod Joblists
mod Waiting
