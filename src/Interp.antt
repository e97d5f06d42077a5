-- ===== src/Interp.antt =====
-- runtime/interp.c, the 65816 interpreter in its strict and its system mode.
pub mod Registers
pub mod Access
pub mod Instr
pub mod Decode
pub mod Calls
pub mod Exec
pub mod Run
pub mod Rest
pub mod Returns
pub mod Total
pub mod Stack
pub mod Interrupted
pub mod Returned
