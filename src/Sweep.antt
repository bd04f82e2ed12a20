-- ===== src/Sweep.antt =====
-- core/parseallcycle.go and core/taskpages.go: the sweep over a tracker's pages in cycles, and the
-- pruning of pages that are gone.
pub mod Cycle
pub mod Owed
pub mod Begin
pub mod Pages
pub mod Slots
mod Tests
