-- ===== src/Samples.antt =====
-- Tests of the model on concrete inputs, and the theorems at inputs that meet their hypotheses.
mod Service
mod Parameters
mod Bootloader
mod Numa
mod Inventory
mod BlockDevices
mod Commands
mod Managers
mod Cleaning
mod Erasing
mod Images
mod Client
mod Inspection
mod Addresses
