-- ===== src/Python.antt =====
-- The parts of Python that the program's code calls: exceptions, JSON values, texts, base64.
pub mod Errors
pub mod Environ
pub mod Json
pub mod Text
pub mod Floats
pub mod Replace
pub mod Base64
pub mod Dumps
pub mod Integers
pub mod Order
pub mod Decimal
pub mod Traverse
pub mod Sorting
