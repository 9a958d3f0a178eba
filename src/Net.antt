-- ===== src/Net.antt =====
-- What the program uses of Go's `net`.
pub mod Ip
