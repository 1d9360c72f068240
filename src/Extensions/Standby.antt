-- ===== src/Extensions/Standby.antt =====
-- ironic_python_agent/extensions/standby.py.
pub mod Info
pub mod Download
pub mod Prepare
pub mod Shutdown
