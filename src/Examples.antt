-- ===== src/Examples.antt =====
-- Concrete inputs at which the theorems of the library apply.
mod Converter
mod Registry
mod Messages
mod Windows
mod Cards
mod Users
