-- ===== src/Paths.antt =====
-- The path model of src/path.c: endpoints, probes, measurements, the table and the choice.
pub mod Ep
pub mod Types
pub mod Measure
pub mod Cost
pub mod Observe
pub mod Probe
pub mod Table
pub mod Admit
pub mod Reclaim
pub mod Rank
pub mod Invariant
pub mod Adopt
mod Tests
