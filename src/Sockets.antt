-- ===== src/Sockets.antt =====
-- The socket programs: Project_1/client.c and Project_1/server.c, and
-- Project_3/part2/part22.c. Sockets/Program.antt has what a program does, Sockets/Main.antt the two
-- programs of Project_1, Sockets/Pair.antt part22.c, and Sockets/Connection.antt two programs at
-- the ends of a connection.
pub mod Program
pub mod Main
pub mod Pair
pub mod Connection
pub mod Setup
pub mod Buffer
pub mod Hello
pub mod Lost
mod Examples
