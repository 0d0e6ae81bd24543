-- ===== src/Lib.antt =====
-- Wrappers of the esp-idf drivers and libraries as C++ classes, and the protocols that some of them
-- add: enumeration and sector transfers of USB mass storage, socket sessions, searches of buses.
--
-- The classes do not know each other, except that WiFi, provisioning and the socket server use the
-- default event loop, the disk layer uses the mass storage class, and the USB classes read the same
-- descriptors. Each one keeps a few fields and calls esp-idf.
-- esp-idf, FreeRTOS, lwip and the drivers are no part of the repository. A module names the calls
-- that its class makes by a data type `Call`, and an environment (Driver, `Env`) answers each call
-- by the history of calls before it: an error code or a handle, a C int, or bytes. A method is a
-- function from the object's fields and the history to its result, the new fields and the longer
-- history. What is shown of every environment is shown of every behaviour of the drivers; where a
-- property needs the drivers to behave, it says how in a hypothesis on the environment, and a test
-- module instantiates it. Numbers are unsigned unless they are of the type ℤ; arithmetic that wraps
-- is written with its modulus.
--
-- Base, Base/Tests, Base/Lists, Base/Bytes, Base/Int: the shared names; tests on numbers; lists
--   measured by native numbers; words as bytes; the C int.
-- Driver: environments, objects with a history, and ESP_RETURN_ON_ERROR as an operator.
--   Driver/Script: a chain of calls that ends with the first error. Driver/Handles: which handle is
--   alive after a history, and the histories that use no other.
-- I2c (components/i2c-comp/i2c-comp.cpp): config, begin, get, put, set, write, read. I2c/Scan: scan.
--   I2c/Frames and I2c/Outcome: the frames of the protocol, the links and the buffer.
--   I2c/Scan/Found: the devices of a bus.
-- Usb/Wire (components/usb-host-comp/include/usb_requests.hpp): the packets and their bytes, and in
--   Usb/Wire/Device how a device reads them. Usb/Msc (components/usb-host-comp/msc/usb_msc.cpp and
--   host/usb_device.cpp): the completion callback usb_transfer_cb and what it calls; Usb/Msc/Steps,
--   Commands, Faults, Enumeration, Enumeration/Whole and TooMany: the enumeration of the units. Usb/Msc/Transfers: init, reset, _read10,
--   _write10 and the getters, with Retry, Write and Read below it. Usb/Disk
--   (components/usb-host-comp/msc/vfs/diskio_rawmsc.cpp): the table of drives, with Usb/Disk/Table, and
--   Usb/Disk/Sectors: the driver that FatFs calls, which uses Usb/Msc/Transfers.
--   Usb/Msc/Construct: the constructor, with Release: deinit. Usb/Descriptors: what the parsers of descriptors give. Usb/Acm
--   (components/usb-host-comp/acm/usb_acm.cpp): the serial class, with Usb/Acm/Requests, the packets
--   and the buffers; Usb/Acm/Ledger, the transfers as steps of the user and the driver; and
--   Usb/Acm/Descriptors, the constructor. Usb/Host (components/usb-host-comp/host/usb_host.cpp): the
--   rounds of client_async_seq_task; Usb/Host/Lifetime and Restart: the client's handle.
-- Http (components/http-server-comp/http-server.cpp): the server and its requests; Http/Query: hasKey
--   and getKey; Http/Body: hasQuery and getQuery; Http/Memory: the buffers.
-- Eth (components/eth-comp/eth-comp.cpp), with Eth/Address: setConfig, and
--   Eth/Lifetime: start and deinit. Mqtt (components/mqtt-comp/mqtt-comp.cpp), with Mqtt/Clients: the
--   client's handle. Sntp
--   (components/sntp-client-comp/sntp-client.cpp), with Sntp/Semaphore. Provision
--   (components/wifi-prov-comp/wifi-prov.cpp), with Provision/Name: the service's name. Uart
--   (components/uart-comp/uart-comp.cpp), with Uart/Events: the queue of events. Json
--   (components/json-comp/json-comp.cpp), with Json/Access: reading what a document holds.
-- Socket (components/socket-server/socket-server.cpp): the class but for sending, which is
--   Socket/Send, and the task socket_task, which is Socket/Session. Socket/Session/Serve and
--   Socket/Lifecycle: a whole connection; accepting and stopping. Socket/Publish: publish.
-- HttpClient (components/http-client-comp/http-client.cpp), with HttpClient/Lifetime: the handle.
-- Ota (components/ota-comp/ota.cpp): init, begin, compare, write, finish. Ota/Session: an update.
-- Wifi (components/wifi-comp/wifi.cpp): modes, interfaces, configurations. Wifi/Modes, Wifi/Config.
-- Ds18b20 (components/ds18b20/ds18b20.cpp): the sensors. Ds18b20/Memory and Release: the arrays.
--   Ds18b20/Bus and Bus/Search: what a search finds.
-- Queue, Tasks, Events, Nvs, Timer (components/queue-comp, tasks-comp, events-comp, nvs-comp and
--   timer-comp): the classes of these names, with Queue/Safety, Tasks/Safety, Events/Loops, Nvs/Dump
--   and Timer/Kinds. Tasks/Stats: the rows of Task::stats.
-- Aws (components/aws-iot-comp/aws-iot-comp.cpp): the semaphore that aws_iot_task, subscribe,
--   publish, updateShadow and status share, as a step relation; Aws/Exclusion. Aws/Client and
--   Aws/Client/Start: the parameters, init and connect.
-- Base64 (components/base64-comp/base64-comp.cpp), with Base64/Roundtrip. Smartconfig
--   (components/smartconfig-comp/smartconfig-comp.cpp).
-- The modules called Tests hold concrete runs.
--
-- Loops over a bounded range are recursion on the number of rounds left. The loops that the source
-- does not bound take fuel: sending (a round for every byte is enough, since each call takes one or
-- fails), a client's task (a round for every packet until the connection ends), accepting (a round
-- more than pass without a client), reading sectors (an attempt more than find the endpoint busy),
-- the walk over the storage (a round more than there are entries), and the wait of the USB task for
-- its devices to be freed (a call more than find them not finished).
--
-- Not modelled: logging and printing; the user's callbacks; calls that only forward to one driver
-- function, among them the command line and the tools; pointers
-- into cJSON trees that a caller keeps; the test programs; jsmn and FreeRTOS-Plus-CLI, which are
-- copies of other projects. Interleavings are explicit in Aws and in Usb/Acm/Ledger; elsewhere they
-- are seen as the answers of the environment only. The parsers of esp_http_server, cJSON, the
-- functions of mbedtls, ipaddr_aton and usb_round_up_to_mps are parameters.
pub mod Aws
pub mod Base
pub mod Base64
pub mod Driver
pub mod Ds18b20
pub mod Eth
pub mod Events
pub mod Http
pub mod HttpClient
pub mod I2c
pub mod Json
pub mod Mqtt
pub mod Nvs
pub mod Ota
pub mod Provision
pub mod Queue
pub mod Smartconfig
pub mod Sntp
pub mod Socket
pub mod Tasks
pub mod Timer
pub mod Uart
pub mod Usb
pub mod Wifi
