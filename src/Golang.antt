-- ===== src/Golang.antt =====
-- The parts of Go and its standard library that the program computes with.
mod Tests
pub mod Float
pub mod Decimal
pub mod Duration
pub mod Seconds
pub mod Path
pub mod Utf8
pub mod Disk
