-- ===== src/Python.antt =====
-- What the scripts use of Python itself: exceptions, dictionaries, texts and their numbers. None of
-- it is code of the repository; the definitions say what the language reference says.
pub mod Outcome
pub mod Dict
pub mod Nested
pub mod Text
pub mod Number
pub mod Sequence
pub mod Sorting
pub mod Float
