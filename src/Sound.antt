-- ===== src/Sound.antt =====
-- The invariant of the machine: every register and every byte has its width, and the registers are
-- those of a 65816. The children prove that the runtime keeps it.
pub mod State
pub mod Rules
pub mod Bus
pub mod Memory
pub mod Registers
pub mod Access
pub mod Calls
pub mod Exec
pub mod Run
pub mod Move
pub mod Entry
