-- ===== src/Printf.antt =====
-- src/vsnprintf.cpp: one module for each stage of a conversion, and the loop.
pub mod Spec
pub mod Number
pub mod Field
pub mod Args
pub mod Loop
mod Tests
