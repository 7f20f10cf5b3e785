-- ===== src/Tests.antt =====
-- The theorems at concrete inputs, and the run time that the inputs are read with.
mod Sample
mod Sessions
mod Scores
mod Windows
mod Streams
mod Parsing
mod Actors
mod Follow
mod Numbers
mod Models
mod Datasets
mod Exports
