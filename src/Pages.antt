-- ===== src/Pages.antt =====
-- Project_3/part3/part3.c: two programs map the same number of pages; a menu writes texts to pages and
-- prints them. `Data` has the globals, `Access` mem_read and mem_write, `Menu` a turn of the menu,
-- `Start` how the two programs agree on the region, `Threads` `main` with its threads up to the menu,
-- `Handler` a page fault.
pub mod Data
pub mod Access
pub mod Menu
pub mod Ready
pub mod Texts
pub mod Start
pub mod Threads
pub mod Handler
mod Examples
pub mod ThreadExamples
