-- ===== src/Cstring.antt =====
-- src/cstring.cpp: one module for each group of routines.
pub mod Copy
pub mod Length
pub mod Compare
pub mod Search
pub mod Build
pub mod Edit
pub mod Token
mod Tests
