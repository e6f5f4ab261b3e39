-- ===== src/Proj2.antt =====
-- Project_2/submission_new/proj2.c: a module that parses a list of integers into a linked list, a hash
-- table, a red-black tree and a radix tree, prints the four and frees them. `Kernel` is what it
-- takes from the kernel, `Rb` the search tree, `Store` the insertions and the parser, `Show` the
-- proc file and its cleanup.
pub mod Sorted
pub mod Rb
pub mod Kernel
pub mod Store
pub mod Show
mod Examples
pub mod SimpleKernel
