-- ===== src/Lib.antt =====
-- The course projects of the repository, modelled from their C sources.
--
-- The program is a set of separate programs and kernel modules; twelve of them are modelled.
--
-- Msi: Project_3_new/part4/part4.c. Two processes share pages by messages under the MSI protocol.
-- Each has a thread that reads commands (`menu`, started by `client_socket`) and one that handles
-- the messages of the other (`server_socket`); both work on the process's globals. Msi/Data.antt
-- has the globals, Msi/Memory.antt the bytes of the mapping, Msi/Client.antt a command up to its
-- message and from its reply, Msi/Server.antt a message, Msi/System.antt whole commands over both
-- machines with the loops of `-1`, Msi/Start.antt the handshake of `client_socket` and
-- `server_socket`, Msi/Race.antt the threads as a step relation, where a command and a message
-- interleave. Msi/Coherence has the abstract directory (who owns a page) and the theorems; Whole
-- joins the handshake to the sessions, and Exchange a write on one machine to the read on the
-- other. Msi/Faults.antt is the page fault thread, with accesses that wait for it where a page is
-- not there (elsewhere the region simply begins with zeros), and Msi/Boot.antt how a process maps
-- its region and starts that thread, on machine 2 as a step relation of its two threads.
-- Msi/Roles.antt is how the two processes come to be machine 1 and machine 2, as a step relation of
-- the threads of both. Msi/Setup.antt is `main` with the sockets of both threads: its fuel is the
-- number of attempts to connect behind the first, since the source has no bound on them. An array
-- index outside of MAX_SIZE, a text too long for its buffer and an access outside the mapping, that of
-- a string without its NUL too, are `none`. So is a read that takes a part of a `proc_info`: the field
-- `reads_whole` says what the system does there. Loops over the pages count their rounds down from page_count.
--
-- Pages: Project_3/part3/part3.c. Two programs map as many pages at the same address, without the
-- protocol: Pages/Access.antt is mem_read and mem_write, Pages/Menu.antt a turn of the menu,
-- Pages/Start.antt the set-up in server_socket and client_socket, whose system calls are the fields
-- of `Calls`, Pages/Threads.antt `main`, whose threads make the sockets and run until both end, up
-- to the menu, and Pages/Handler.antt a round of the page fault thread. The moment at which
-- server_socket looks at `order` is in its `Input`; the fuel of `main` is that of Msi/Setup.
-- Offsets are the source's `int` and `unsigned long`, with their conversions written out; the loops
-- over all pages have pg_size rounds. What a recv finds is `Heard`: a message, the end of the
-- connection, or nothing.
--
-- Bus: Project_3/part4/part4.c, the first version of the page sharing. Each of two programs has a
-- menu over a region and the flags of its pages (Bus/First.antt is the menu of `server_socket`,
-- Bus/Second.antt the other; Bus/Data.antt and Bus/Access.antt what they share), and a thread for
-- page faults that signals them over a bus (Bus/Handler.antt); Bus/Start.antt is the set-up, and
-- Bus/Threads.antt `main` with the threads, which make the socket calls of Pages. states_list[-1]
-- is the memory in front of the array, the field `before`. The loops over the pages have pg_size
-- rounds, those over the bytes data.length.
--
-- Uffd: Project_3_new/part1/uffd.c. A program reads a region three times while its thread fills
-- each page at its first read: Uffd/Handler.antt is the thread, which runs while the program waits
-- in a fault, Uffd/Main.antt the program. A loop over `len` bytes has len / step + 1 rounds. System
-- calls are the fields of `Calls` and of `Answer`.
--
-- Proc: Project_4/part1/proj4.c. The walk of the task tree into the kernel log (Proc/Search.antt),
-- over tasks (Proc/Task.antt) and the formats of the C library (Proc/Text.antt). The fuel of the
-- digits is the number plus one.
--
-- S2fs: Project_4/part4/s2fs.c. A file system with a file for each task: S2fs/Info.antt is the text
-- of a task, S2fs/File.antt open, read and write, S2fs/Dentry.antt the entries and the walk,
-- S2fs/Super.antt the mount, and S2fs/Super/Files.antt a mount with a read of one of its files. It
-- walks the tasks as Proc does, and prints the same lines, with the pid of each entry behind them
-- (S2fs/Dentry/Printed.antt). Allocators and look-ups of the kernel
-- are the fields of S2fs/Kernel.antt. Reading in pieces takes as fuel the length of the text plus
-- one.
--
-- Proj2: Project_2/submission_new/proj2.c. A module that parses a list of integers into a linked
-- list, a hash table, a red-black tree and a radix tree, prints the four and frees them:
-- Proj2/Rb.antt is the search tree, Proj2/Store.antt the insertions and the parser
-- (Proj2/Store/Views.antt has the contents as multisets and sets, which forget the order),
-- Proj2/Show.antt the proc file and the cleanup, Proj2/Sorted.antt the sorted sets that specify the
-- tree. The allocator, the hash table, the radix tree, kstrtoint, rb_insert_color and rb_erase are the
-- kernel's: Proj2/Kernel.antt has them as an interface with laws.
--
-- Ex4: EX_4/ex4.c. A module that parses a list into a linked list, prints it and frees it in its
-- ex4_init. Ex4/Entries.antt has the list and its objects by address, where a kfree of an address
-- without an object is a fault; Ex4/Init.antt the parser and ex4_init. It uses strsep as Proj2 has
-- it.
--
-- Counter: Project_4/part2/s2fs.c and Project_4/part3/s2fs.c, the steps towards S2fs.
-- Counter/File.antt is the file of a counter, over the counters by address and with ints as their
-- 32 bits; Counter/Greeting.antt the mount with the file of a fixed text; Counter/Pieces.antt the
-- end of both read functions; Counter/Digits.antt states what simple_strtol does.
-- Prelude/Pieces.antt is a program that reads a file until the end, in pieces, with the length of
-- the text plus one as fuel. What the kernel checks before it calls an operation, such as the mode
-- of the inode, is not modelled.
--
-- Sockets: Project_1/client.c, Project_1/server.c and Project_3/part2/part22.c.
-- Sockets/Program.antt has what a program does as the calls it makes; Sockets/Main.antt the two of
-- Project_1, Sockets/Pair.antt the third, which is a server or a client by its arguments;
-- Sockets/Connection.antt two programs at the ends of a connection, which take turns in any order.
-- The set-up calls are the fields of `Calls`. The lines that part22.c prints before it is connected
-- are printed in turns too. The connection loses nothing, also where a program ends with bytes that
-- it has not read.
--
-- Not modelled: in Msi, the end of a connection; in Bus, the page faults of a turn of the menu, which
-- Bus/Handler.antt has apart; module registration, which is a
-- call of the system; which object a list entry of Proj2 is. The programs that are small examples,
-- and the copies and earlier versions of those above, are not modelled.
pub mod Bus
pub mod Counter
pub mod Ex4
pub mod Msi
pub mod Pages
pub mod Prelude
pub mod Proc
pub mod Proj2
pub mod S2fs
pub mod Sockets
pub mod Uffd
