-- ===== src/Ex4.antt =====
-- EX_4/ex4.c: a module that parses a list of integers into a linked list, prints it and frees it. `Entries`
-- is the list, `Init` the parser and ex4_init.
pub mod Entries
pub mod Init
mod Examples
