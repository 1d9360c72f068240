-- ===== src/Hardware.antt =====
-- ironic_python_agent/hardware.py.
pub mod Types
pub mod Sorting
pub mod Managers
pub mod Dispatch
pub mod Erase
pub mod Disks
pub mod Listing
