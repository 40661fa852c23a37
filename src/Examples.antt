-- ===== src/Examples.antt =====
-- Runs of the program's functions at concrete inputs, and the theorems at such inputs.
pub mod Crate
pub mod Messages
pub mod Frames
pub mod Balancing
pub mod Clients
pub mod Online
pub mod Motds
pub mod Running
pub mod Snapshots
pub mod Bound
