-- ===== src/Startup/Device.antt =====
-- A device for a bus that is started.
