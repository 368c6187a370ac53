-- ===== src/Replay.antt =====
-- src/replay.c: `Defs` has the window and its operation, `History` a specification that forgets
-- nothing, and `Window` the refinement.
pub mod Defs
pub mod History
pub mod Window
mod Tests
