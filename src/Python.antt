-- ===== src/Python.antt =====
-- The parts of the Python language that the program computes with: texts, floats, dynamic values,
-- dictionaries and exceptions.
pub mod Float
pub mod Text
pub mod Value
pub mod Fields
pub mod Objects
pub mod Dict
pub mod Exception
pub mod Numpy
