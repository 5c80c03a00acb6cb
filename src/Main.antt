-- ===== src/Main.antt =====
-- src/main.c: the options, and the main function.
pub mod Options
pub mod Flow
pub mod Flows
pub mod Info
pub mod Smooth
pub mod Profiled
pub mod Benched
pub mod Kept
pub mod Released
pub mod Program
pub mod Modes
