-- ===== src/Python.antt =====
-- What the sources use of Python itself: `bytes`, `bytes.fromhex`, `.hex()`, `int(...)`, sorted
-- sets of byte strings, and the values that `json.load` returns.
pub mod Bytes
pub mod Sorting
pub mod Hex
pub mod Int64
pub mod Value
