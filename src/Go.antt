-- ===== src/Go.antt =====
-- The Go standard library that the program calls, as far as it is used: package strings, the decimal
-- forms of strconv and the bytes of a string (Text), package net/netip (Netip), package
-- encoding/json (Json) and the numbers of type float64 (Float).
pub mod Text
pub mod Netip
pub mod Float
pub mod Json
mod Tests
