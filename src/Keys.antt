-- ===== src/Keys.antt =====
-- internal/keys/keys.go: values as bytes that sort the way the values do.
-- A byte is a number below 256, a float64 its 64 bits, and an `int` or `int64` an integer. A float32
-- is given by the float64 that it converts to. `other` is any type that the switch does not name.
pub mod Codec
pub mod Shape
pub mod Composite
mod Numbers
pub mod Order
pub mod RoundTrip
mod Tests
