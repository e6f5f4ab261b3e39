-- ===== src/Proc.antt =====
-- The processes of the kernel as Project_4 sees them (part1/proj4.c, part2 to part4/s2fs.c): `Text` is
-- the formatting of printk and snprintf, `Task` the tree of tasks, `Search` the walk that prints it.
pub mod Text
pub mod Task
pub mod Search
pub mod Preorder
