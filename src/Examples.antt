-- ===== src/Examples.antt =====
-- Tests at concrete inputs, and the properties applied where their hypotheses hold.
mod Ducks
mod Trees
mod Schema
mod Rows
mod Pools
mod Ingests
mod Buffers
mod Commits
mod Process
mod Files
mod Streams
mod Rewrites
mod Statistics
mod Inserts
