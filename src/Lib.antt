-- ===== src/Lib.antt =====
-- Verification of the dinhnamuet Zephyr application: an ESP32 and STM32 firmware with over-the-air
-- updates, and the two host tools that update it.
--
-- The parts and how they interact
--
-- - A host tool (host-dfu-app/tcp_client.c over a socket, host-dfu-app/dfu_host.c over USB) sends START,
--   the firmware in DOWNLOAD chunks, and END, and waits for a two-byte answer after each.
-- - The device's TCP server (app/src/tcp_server.c) accepts clients in one thread and polls them in
--   another; it hands each message to the callback of app/main.c, which calls the update handler
--   (app/src/dfu.c). The handler drives the flash image writer, answers, and at END requests the
--   upgrade and reboots.
-- - On a board with USB the vendor class (modules/usb_class) receives packets into buffers of the device
--   stack and calls app/src/usb.c, which queues them for the application and sends its answers.
-- - The joystick driver (modules/drivers/joystick) reports axis events, app/src/joystick_hal.c collects
--   them and publishes pairs on a zbus channel, and app/src/http_server.c shows the last pair.
--
-- Which file models which part
--
--   Prelude: library names, Boolean tests, lists over the native numbers, C integers, and calls of
--   outside code.
--   Dfu: `dfu_start`, `dfu_download`, `dfu_end`, `lookup_table` and `dfu_handle` of app/src/dfu.c, for
--   both values of DFU_NET_TCP. Dfu/Spec reads the protocol of app/inc/dfu.h off a trace.
--   TcpServer: the slot table, `add_client`, `remove_client` and the bodies of both threads;
--   TcpServer/Threads interleaves them; TcpServer/Clients is the table without slots and order;
--   TcpServer/Start is how the threads are started.
--   Host: what the two tools share, the steps and the DFU sequence. TcpClient, DfuHost: the tools.
--   App: the callback of app/main.c; App/Serve puts it under the server's threads; App/Update joins a
--   client to the device; App/Main is `main`, which starts the components below.
--   UsbClass: modules/usb_class/src/custom_class.c, the vendor class with one bulk endpoint each way;
--   UsbClass/Descriptor: its descriptors, over the constants of Zephyr's USB headers.
--   Usb: app/src/usb.c, with the class under it in Usb/Transfers; Fifo: the interface of the queue
--   between its callback and its thread.
--   Counter: app/src/counter.c, the channel table and its alarms; what the application's callbacks do to it
--   while they run is a parameter.
--   Wifi: app/src/wifi_impl.c, with the events that come in during each call as part of its answer;
--   Wifi/Awaited says when the wait for the network returns.
--   Serial: app/src/serial.c; Serial/Driver is the order of events that the UART driver keeps, and what
--   comes over the wire.
--   Ota: app/src/updatehub_ota.c. Tsensor: app/src/tsensor.c. Watchdog: app/src/wdt.c, against a clock in
--   milliseconds. Storage: app/src/storage.c, over any partition and any widths of the NVS fields.
--   Joystick: the driver and the HAL. HttpServer: the listener and the JSON resource, with a
--   reader of its text; HttpServer/Resources: the page and the table of resources.
--
-- How the code is modelled
--
-- A C function is a function from its arguments and the state to its result and the new state. Calls of
-- Zephyr, libusb and the socket library are not defined here: each is recorded in a trace, newest first,
-- and what it answers comes from an environment, an arbitrary function of the calls so far. A theorem
-- for every environment therefore holds whatever that code answers. Where a theorem needs more of it,
-- the statement says so. An answer is what a call gives when it returns: `recv` in tcp_client.c and the
-- wait for the network in app/src/wifi_impl.c have no time limit, so that what is said of an end
-- supposes that they return. Descriptors, sizes and bytes are natural numbers; return codes are integers;
-- the client counter keeps its 32-bit wrap-around.
--
-- The download loop runs on fuel, one more than the size of the image, and is proved to return. `%d` is
-- printed with at most twenty digits, which hold every 64-bit number.
--
-- Threads are interleaved at their lock regions. App/Update has one client: the server takes five, and
-- the requests of another would go into the same update (a finding; App/Serve has all of them). There no
-- packet of the tool runs into the next, which TCP does not promise and the code relies on (a finding);
-- one that is longer than the server's buffer is read in pieces, as `zsock_recv` does, and each piece is
-- a request. What `zsock_send` took is taken to reach the tool, also when the device reboots at once.
--
-- Not modelled: logging, messages other than the progress line, usage texts, thread stack sizes, the
-- devicetree macros and the tables of functions that Zephyr calls through. The allocation of a USB or
-- serial frame and the `memcpy` into it are one copy of the bytes into a block that the heap names.
-- Temperatures are integers, in millionths of a degree, where the code has a `double`. `malloc` does not
-- fail in tcp_client.c, which does not look.
pub mod Prelude
pub mod Dfu
pub mod TcpServer
pub mod Host
pub mod App
pub mod Joystick
pub mod HttpServer
pub mod TcpClient
pub mod DfuHost
pub mod Fifo
pub mod UsbClass
pub mod Usb
pub mod Counter
pub mod Wifi
pub mod Ota
pub mod Tsensor
pub mod Serial
pub mod Watchdog
pub mod Storage
