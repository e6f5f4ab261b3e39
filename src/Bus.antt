-- ===== src/Bus.antt =====
-- Project_3/part4/part4.c: the first program that shares pages with flags. `Data` has the globals,
-- `Access` the loops over the region and the flags, `First` the menu of machine 1 in
-- server_socket, `Second` that of machine 2 in client_socket, `Handler` the page faults and the
-- bus, `Start` what the menus start with, and `Threads` `main` with its threads up to the menus.
pub mod Data
pub mod Access
pub mod First
pub mod Second
pub mod Single
pub mod Folds
pub mod All
pub mod Handler
pub mod Start
pub mod Threads
mod Examples
