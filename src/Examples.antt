-- ===== src/Examples.antt =====
-- The programs under examples, put together from the modelled parts.
pub mod OsiDemo
