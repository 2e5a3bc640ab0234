-- ===== src/Lib.antt =====
-- Verification of the RS485 daemon and of the modules of its SDK.
--
-- A client of the daemon asks for a method of a device (open, set the temperature, read the
-- state). The device's driver turns the method into a frame, the worker of the protocol sends it
-- over the serial line, waits for the reply and sends again, and the driver checks and reads the
-- reply.
--
-- Parts:
--   Prelude        numbers, lists, Boolean tests, exclusive or, the search loop
--   Crc            the CRC-16 of app/rs485d/src/device/curtain/doya/doya.c (modbus_crc16 and its tables):
--                  Residue (what a receiver checks), Bitwise (the reference by shifts), Frame
--   Device.Port    the driver's handle (mstp_port_handle_t), the methods of app/rs485d/include/enum.h and
--                  the information of app/rs485d/include/adapter.h
--   Device.Doya    app/rs485d/src/device/curtain/doya/doya.c: doya_send_package_handle and
--                  doya_recv_package_handle; NoReply has the calls *_curtain_no_reply
--   Device.Aoke    app/rs485d/src/device/curtain/aoke/aoke.c: aoke_send_package_handle
--   Device.Loreley app/rs485d/src/device/freshAir/loreley/loreley.c: both handlers and the sum check
--   Device.Hitachi app/rs485d/src/device/airCondition/hitachi/vrv_manager.c: the Modbus registers
--   Device.Johnson app/rs485d/src/device/airCondition/york/johnson_controls.c: the status of the 64 units;
--                  Wish says what the words of a frame mean
--   Device.York    app/rs485d/src/device/airCondition/york/york.c: the BACnet objects of an air conditioner
--   Device.Daikin  app/rs485d/src/device/airCondition/daikin/DTA116A621.c: the registers of the HA adapter
--                  (Masks: the fields of a word)
--   Device.Panasonic app/rs485d/src/device/airCondition/panasonnic/panasonnic.c: the table of commands and
--                  both handlers, without PANASONNIC_EXTEND; Wish says what a frame means
--   Modbus         app/rs485d/src/protocol/modbus/modbus.c: the dispatch on the function code, the
--                  retries (Retry), one message (Process, Ends), with the Hitachi driver (Hitachi), the
--                  thread over its queue (Thread), the start and end of the service (Service)
--   Bacnet         app/rs485d/src/protocol/bacnet/bacnet.c, write_property.c and read_property.c: one write
--                  (Write), the reads (Read), a sequence of messages (Work), with the York driver (York), the
--                  thread over its queue (Thread)
--   Custom         app/rs485d/src/protocol/custom/custom.c: do_bus_message, its queue (Queue), its start
--                  and end (Probe), with app/rs485d/src/protocol/custom/interface.c (Interface) and the
--                  driver of app/rs485d/src/device/curtain/doya/dooya.c (Dooya); Service puts the queue,
--                  the table of devices and do_bus_message together
--   Core           app/rs485d/src/core/core.c: the buses (Register, Ports) and the devices (Device), on
--                  Table.Devices and Bus; app/rs485d/src/core/register.c (Calls)
--   Startup        custom_init and custom_exit of app/rs485d/src/protocol/custom/custom.c (Bus),
--                  with its probe and remove (Custom), and app/rs485d/src/client/client.c
--                  (Device), as app/rs485d/src/main.c calls them
--   Worker         the loop of the threads of general.c, modbus.c and bacnet.c over their work queues
--                  (Drain: in any order with the clients' calls)
--   Signals        sdk/module/daemon/signal.c: the table of handlers and the thread
--   Timer          sdk/module/timer/timer.c: the tasks, one of them over time (Period), all (Rounds)
--   Bus            sdk/framework/bus and the iterators of sdk/module/list/wlist.c: devices, drivers, and
--                  how they are bound (Driver) and looked up (Lookup); Driver.Match has the match of
--                  app/rs485d/src/core/core.c
--   Line           app/rs485d/src/protocol/general/rs485.c (Baud, Port, one frame out and
--                  in: Frame) and app/rs485d/src/protocol/general/general.c (the worker's retransmissions:
--                  Work, and its thread over the queue: Work.Service)
--   Table          sdk/module/bitmap/bitmap.c, sdk/module/bitmap/it_table.c (Bytes: a
--                  record in its storage) and app/rs485d/src/core/mdev.c
--
-- A C function has the name it has in the source. It takes the objects that it changes and returns
-- them with its result; `none` is a NULL pointer, and an `int` result is a `ℤ` with the negative
-- error numbers. Bytes and words are natural numbers with the wraps written out. A buffer is the
-- list of its bytes; a read outside a list gives 0 and a write outside it changes nothing, where
-- the source is undefined, and the theorems ask for the room that rules this out.
--
-- Bounds: the loop of the worker of general.c runs on fuel, and fuel 3 is enough, since the worker
-- clamps the number of retransmissions to 3; the retries of the Modbus worker need as much fuel as
-- the message has retransmissions, the loop of the custom bus 3, since it clamps that number too,
-- and the release of a driver's devices one more than the devices. Every other loop is structural.
--
-- Parameters: the operating system's write, select and read (Line.Frame.Os, Custom.Os), the
-- drivers that the worker calls, the size of its buffer, and the value to which its counter wraps
-- at 0, since the header that declares the handle is not in the repository; the calls of libmodbus
-- (Modbus.LibModbus) and of the BACnet stack (Bacnet.BacnetStack); the callbacks and the threads of
-- a bus (Core.Host), the port's calls (Custom.Probe.PortOs, Line.Port.SerialOs), the calls of a work
-- queue (Worker.WorkQueue), which the threads call by names that the repository does not declare,
-- and the handling of a queued message; the results of malloc and of the thread calls of the
-- timer; the callbacks of a bus and of its drivers (Bus.Hooks). The lists of sdk/include/klist.h, which
-- is the Linux kernel's, are lists here.
--
-- Not modelled: the handlers that only pass a call on to a driver's probe, remove, suspend or
-- resume, the registration of handlers with the BACnet stack, the daemon and the client, which are
-- calls of the operating system, and what stands under #if 0. The ring buffer (sdk/module/ringbuffer)
-- is a copy of the BACnet stack's; the message queue, kconfig, klist.h and device-client.c are copies
-- of other projects too. The static rows of read_property.c have a bound that a header outside the
-- repository defines; the model's rows have none.
pub mod Bacnet
pub mod Bus
pub mod Core
pub mod Crc
pub mod Custom
pub mod Device
pub mod Line
pub mod Modbus
pub mod Prelude
pub mod Signals
pub mod Startup
pub mod Table
pub mod Timer
pub mod Worker
