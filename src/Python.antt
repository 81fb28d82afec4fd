-- ===== src/Python.antt =====
-- What the program uses of Python's language and library: text and byte strings.
pub mod Utf8
pub mod Ordered
pub mod Decimal
pub mod Struct
pub mod Text
pub mod Path
