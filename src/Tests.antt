-- ===== src/Tests.antt =====
-- Runs of the definitions and instances of the theorems at concrete inputs.
pub mod Machine
pub mod Desk
mod Profile
mod Supply
mod Sets
mod Session
mod Modes
mod Sorting
mod Errors
mod SysInfo
mod Alloc
mod Sampling
mod Counter
mod Options
mod Released
