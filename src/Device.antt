-- ===== src/Device.antt =====
-- gwcpp/device: the serial device.
pub mod Serial
pub mod Uart
pub mod Adc
pub mod Io
