-- ===== src/Device.antt =====
-- The drivers of the devices on the serial line, app/rs485d/src/device: each turns a method of the
-- client into a frame, and checks and reads the reply.
pub mod Port
pub mod Doya
pub mod Aoke
pub mod Loreley
pub mod Hitachi
pub mod Johnson
pub mod York
pub mod Daikin
pub mod Panasonic
