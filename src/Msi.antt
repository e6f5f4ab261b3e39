-- ===== src/Msi.antt =====
-- Project_3_new/part4/part4.c: two machines that share pages over a socket, kept coherent by an
-- MSI protocol. `Data` holds the state of one machine, `Memory` its bytes, `Client` the commands of
-- `menu`, `Server` the loop of `server_socket`, and `System` joins the two machines; `Setup`
-- is `main` and the sockets, `Faults` the page fault thread, `Boot` how a process starts, and `Roles`
-- which machine it becomes.
pub mod Data
pub mod Memory
pub mod Client
pub mod Server
pub mod System
pub mod Start
pub mod Faults
pub mod Boot
pub mod Setup
pub mod Roles
pub mod Race
pub mod Coherence
mod Examples
mod BootExamples
