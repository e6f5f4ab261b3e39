-- ===== src/Counter.antt =====
-- The first file systems of Project_4: `File` is the counter of Project_4/part2/s2fs.c, `Greeting` the
-- fixed text of Project_4/part3/s2fs.c.
pub mod Pieces
pub mod Digits
pub mod File
pub mod Greeting
mod Examples
