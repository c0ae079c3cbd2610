-- ===== src/Spi.antt =====
-- spi/swspi-srv: the software SPI devices.
pub mod Driver
pub mod Client
