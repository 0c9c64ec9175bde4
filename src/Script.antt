-- ===== src/Script.antt =====
-- src/script.h and src/script.cpp
pub mod Opcode
pub mod Parse
pub mod Number
pub mod Machine
pub mod Compute
pub mod Eval
pub mod Compress
pub mod Samples
mod Tests
pub mod Walk
