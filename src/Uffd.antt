-- ===== src/Uffd.antt =====
-- Project_3_new/part1/uffd.c: a program that reads a region three times, while its handler thread fills
-- each page at its first read. `Handler` is the thread, `Main` the program, `Letters` the
-- region as a pass finds it, `Passes` one pass and `Reads` the three.
pub mod Handler
pub mod Main
pub mod Letters
pub mod Passes
pub mod Reads
mod Examples
