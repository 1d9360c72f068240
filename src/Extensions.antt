-- ===== src/Extensions.antt =====
-- ironic_python_agent/extensions.
pub mod Base
pub mod Clean
pub mod Standby
pub mod Flow
pub mod Image
pub mod Iscsi
