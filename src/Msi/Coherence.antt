-- ===== src/Msi/Coherence.antt =====
-- The protocol of Project_3_new/part4/part4.c against an abstract MSI directory. `Defs` holds the
-- directory and the invariant, the others prove the rounds.
pub mod Defs
pub mod Rounds
pub mod Writes
pub mod Menu
pub mod Directory
pub mod Session
pub mod Texts
pub mod Exchange
pub mod Races
pub mod Start
pub mod Whole
