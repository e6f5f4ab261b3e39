-- ===== src/S2fs.antt =====
-- Project_4/part4/s2fs.c: a file system that shows the tree of processes as directories and files.
-- `Info` is the text of a file, `File` its operations, `Dentry` the creation of entries, `Super` the
-- mount.
pub mod Kernel
pub mod Info
pub mod File
pub mod Dentry
pub mod Super
mod Examples
