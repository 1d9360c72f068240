-- ===== src/Errors.antt =====
-- ironic_python_agent/errors.py: the exception classes, their attributes and their constructors.
pub mod Hierarchy
pub mod Build
