-- ===== src/Isa/Bitmanip.antt =====
-- src/sets/zba.cpp, zbb.cpp, zbc.cpp and zbs.cpp: the bit manipulation instructions.
pub mod Address
pub mod Logic
pub mod Carryless
