-- ===== src/Tests.antt =====
-- Concrete inputs: tests of the definitions, and the theorems applied where their hypotheses hold.
pub mod HealthTests
pub mod JournalTests
pub mod ModelsTests
pub mod GovernanceTests
pub mod TextTests
pub mod StateTests
pub mod FsTests
pub mod UpdaterTests
