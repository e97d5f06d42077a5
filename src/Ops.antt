-- ===== src/Ops.antt =====
-- runtime/ops.h, the instruction semantics that generated code calls.
pub mod Flags
pub mod Values
pub mod Memory
pub mod Roundtrip
