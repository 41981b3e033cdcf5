-- ===== src/Python.antt =====
-- The Python package: python/bindings/module.cpp.
pub mod Report
pub mod Bindings
mod Tests
