-- ===== src/Devices.antt =====
-- The memory-mapped devices of src/devices.
pub mod Plic
pub mod Uart
pub mod Clint
pub mod I2c
pub mod Hid
pub mod Syscon
pub mod Virtio
