-- ===== src/Extensions/Clean.antt =====
-- ironic_python_agent/extensions/clean.py.
pub mod Dedup
pub mod Versions
