-- ===== src/Lib.antt =====
-- A verification of the parts of this repository that compute: the base library (byte order,
-- streams, strings, ini files), the monitoring data and text encoding of libsouth_interface, and
-- the completion ports of IOCPServer and of the io library, the mutex of the io library, and the
-- socket addresses of net.
--
-- The parts, with the files that model them:
--   Prelude, Prelude/*   names of the libraries passed on, tests into Bool, list functions over the
--                        native numbers, bit laws, signed integers and their bit patterns.
--   Outcome              what a run can come to: a value, or the way in which it leaves defined
--                        behaviour (a failed assertion, an index out of bounds, freed memory, ...).
--   Util, Util/*         base/util.cpp (CUtil) and the BSWAP macros of base/boring.h.
--   Streams, Streams/*   base/OutStream.cpp in Streams/Out, base/InStream.cpp in Streams/In; Items has
--                        the typed writes and reads as one data type of values.
--   Text, Text/*         base/stringutil.cpp: Chars (classes, case, digits), Hex, Trim, Split,
--                        StrMap.
--   Dict, Dict/*         std::map with string keys, a list of pairs in the order of iteration.
--   Ini, Ini/*           base/inifile.cpp: Config and CIniFile in Ini, the files in Ini/File, text
--                        mode in Ini/TextMode.
--   South, South/*       libsouth_interface/south.cpp over a heap with addresses: Targets, Monitors,
--                        Devices; Chain relates the cells of a list to the list of its nodes,
--                        DeviceList those of a device, DeviceDestruction
--                        its monitors with their targets; DeviceFrames, DeviceSteps and
--                        DeviceRemoval are about device_del_monitor.
--   Encode, Encode/*     libsouth_interface/transformEncode.cpp and toUtf8 of southxml.cpp.
--   Memory               cells by address, as South, Iocp and Address use them.
--   Iocp, Iocp/*         IOCPServer/IocpModel.h and IocpModel.cpp: Contexts, Posting, Worker,
--                        Lifecycle.
--   Handles, Handles/*   the handles that the two ports below create and release.
--   Pool, Pool/*         threads on one completion port that interleave with the main thread and with
--                        completions that come in: a step relation over what a thread does with a
--                        packet, which is an argument. Sound, Shutdown, Serving and Joining are about its
--                        runs. A callback is taken to return.
--   Wiocp, Wiocp/*       io/net_wiocp_module.h and net_wiocp_module.cpp: Loop is one thread.
--   Ciocp, Ciocp/*       IOCPServer/Iocp.h and Iocp.cpp (CIocp): Worker is one thread.
--   Mutex, Mutex/*       io/io_mutex.h and io_mutex.cpp, with threads that use guards as a step relation.
--   Address, Address/*   net/Address.h and net/Address.cpp; Startup is net/Socket.cpp.
--   Console, Console/*   IOCPServer/main.cpp: the handler of console events over Iocp.
--   NetAddress/*         the addresses and sockets of pthread/main.cpp.
--   Servers, Servers/*   UdpServer/UdpServer.h, UdpServer.cpp, TcpServer.h and TcpServer.cpp.
--   Xml, Xml/*           libsouth_interface/southxml.h and southxml.cpp: Make has the XML as calls of
--                        TinyXML, Upload the upload; Pages says what a page holds, Adding and
--                        Monitors relate the two, Composition puts south.cpp before upload.
--
-- How they interact: the streams use the byte order, the ini files use the strings and the map, the
-- monitoring data compares labels as strings, the two ports share handles and the pool, addresses
-- compare IP texts as strings, the servers hold addresses, the upload walks the monitoring data and
-- converts its texts. A function of the model has the name of the function it models in lower case
-- with underscores; state is passed and returned. C integers are native numbers with the wrap-
-- around written out (size_t and unsigned int at 2 ^ 32, as in the 32-bit projects of the
-- solution), a signed value is an integer and its bit pattern.
--
-- Fuel: a loop over a string or a file has fuel for one round a character and one more: each round
-- takes at least one character. A walk along a list in memory has fuel for one round a node and
-- one more, which is an argument of the model's function.
--
-- Parameters: the disk with its text mode and what fclose answers (Ini.File.Disk), which requests
-- for memory fail and which get an address that was used before (South.Heap), the conversions of
-- Windows (Encode.Conversions), what its socket and completion-port calls answer and whether
-- threads end when told to (Iocp.Windows, Handles.Kernel, Wiocp.Sockets), the socket library
-- (Address.Winsock, NetAddress.Calls, Servers.Library), and what TinyXML prints for the calls made
-- (an argument of Xml.Make).
--
-- Not modelled: StringUtil::format; the demo programs (the main functions, UdpClient/, the threads
-- of pthread/); printing; the copies of TinyXML and of the MySQL headers. The worker threads of
-- IocpModel are modelled as one thread that gets all packets in some order: what they share they
-- only read. Its critical section is left out. Assertions are compiled in.
pub mod Prelude
pub mod Outcome
pub mod Memory
pub mod Util
pub mod Streams
pub mod Text
pub mod Dict
pub mod Ini
pub mod South
pub mod Encode
pub mod Iocp
pub mod Handles
pub mod Pool
pub mod Wiocp
pub mod Ciocp
pub mod Mutex
pub mod Address
pub mod NetAddress
pub mod Servers
pub mod Xml
pub mod Console
