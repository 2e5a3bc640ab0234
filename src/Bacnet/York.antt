-- ===== src/Bacnet/York.antt =====
-- A message of the York driver on the worker of BACnet.
