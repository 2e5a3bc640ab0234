-- ===== src/Line.antt =====
-- The serial line: app/rs485d/src/protocol/general/rs485.c and the worker of general.c beside it.
pub mod Baud
pub mod Port
pub mod Frame
pub mod Work
mod Tests
