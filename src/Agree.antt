-- ===== src/Agree.antt =====
-- Generated code computes what the interpreter computes: runtime/ops.h against runtime/interp.c,
-- function by function.
pub mod Flags
pub mod Values
pub mod Stack
pub mod Add
