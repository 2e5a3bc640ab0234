-- ===== src/Table.antt =====
-- Tables of numbered entries: the bitmap and the id table of sdk/module/bitmap, and the device
-- table of app/rs485d/src/core/mdev.c.
pub mod Bytes
pub mod Bitmap
pub mod Ids
pub mod Devices
