-- ===== src/Cycles.antt =====
-- runtime/cycles.c: the cycle count of an instruction and its cycles in order.
pub mod Table
pub mod Template
pub mod Model
pub mod Walk
pub mod Letters
pub mod Length
