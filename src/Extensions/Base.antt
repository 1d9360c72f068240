-- ===== src/Extensions/Base.antt =====
-- ironic_python_agent/extensions/base.py.
pub mod Results
pub mod Commands
