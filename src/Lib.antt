-- ===== src/Lib.antt =====
-- CPPToolBox: a C++ toolbox of a byte buffer, an epoll event loop, TCP connections, a thread
-- pool, a logger and devices.
--
-- The parts and the modules that model them:
--   gwcpp/base/ByteBuf.h, ByteBuf.cpp   ByteBuf: the state and the typed members in ByteBuf.Data, the
--     positions in ByteBuf.Index, whole strings in ByteBuf.Bytes, the typed members by name in
--     ByteBuf.Getters, Readers, Setters and Writers, the searches in ByteBuf.Search, the hexadecimal
--     text in ByteBuf.Hex. A buffer is a list of bytes and four int32_t positions.
--   gwcpp/event/Fd.cpp                  Event.Fd: reference-counted blocks on a heap of cells; an
--     object is null or names a block. Event.Fd.World has a program with several objects,
--     and Event.Fd.Calls the members that pass the descriptor on.
--   gwcpp/event/Poller.cpp, EpollFdEvent.cpp   Event.Poller: the map from descriptors to events, the
--     index and the mask of each event, and the calls of epoll_ctl in a list, from which
--     Event.Poller.Valid reads the interest list of the kernel; Event.Poller.Requests has the requests of
--     the clients, a removal alone and one behind disableAll among them. An event is named by a number.
--   gwcpp/event/Loop.cpp                Event.Loop: the queue of tasks, the events of a round, and the
--     one-shot events; what epoll_wait returns is an argument of each round.
--   gwcpp/event/Timer.cpp               Event.Timer.
--   gwcpp/event/ThreadPool.h, base/SafeQueue.h   Pool and SafeQueue: the steps of the workers and of
--     the callers in any order, as a list of events; each step is one access to what they share.
--   gwcpp/net/Address.cpp, Socket.cpp   Net.Address and Net.Socket; a socket owns the block of its Fd, so
--     that the block is kept as its descriptor.
--   gwcpp/net/TcpConnection.cpp         Net.Connection, on a buffer for each direction and an event of
--     the poller; its callbacks and the calls of send on the socket are recorded in order.
--   gwcpp/net/Connector.cpp, Acceptor.cpp, TcpServer.cpp, TcpClient.cpp   Net.Connector, Net.Acceptor,
--     Net.Server and Net.Client; the client uses the connector and the connection, the server the
--     acceptor and the connection, and all of them the poller of their loop.
--   gwcpp/device/SerialDevice.cpp       Device.Serial, and its line settings in Device.Uart.
--   gwcpp/device/ADCDevice.cpp, IOControl.h   Device.Adc, over any bus that carries its transfers, and
--     Device.Io. A field of a register is taken and set by division and remainder.
--   gwcpp/base/Utils.cpp, Utils.h       Utils, the text of numbers in Utils.Convert, words in
--     Utils.Space and command lines in Utils.Cmdline.
--   gwcpp/base/LogStream.cpp, LogStream.h   LogStream, which writes the numbers by Utils.Convert.
--   gwcpp/base/CLog.cpp, CLog.h         CLog: a log statement puts its head and its values into a
--     LogStream and writes what is there; Files.get_file_name is compared with its baseFileName.
--   gwcpp/base/FileHelper.cpp           Files: paths as lists of bytes, and a directory as the tree that
--     readdir lists.
-- Base has the Boolean tests, lists, integers, std::string and the faults that the parts share, and
-- Tests has concrete states.
--
-- Numbers: a value of an unsigned type is its pattern, below the power of two of its width; an
-- int32_t is an integer, and each conversion between int32_t and size_t is written out with its
-- wrap-around. A throw of std::string, a step that C++ leaves undefined and an assertion that
-- does not hold are values of a result; the poller returns none where an assertion fails.
--
-- Bounds: a reference count of Fd is an int, and to count past 2 ^ 31 - 1 is a fault like any
-- other step that is undefined. A statement on a buffer asks for less than 2 ^ 31 bytes, where
-- its positions stay int32_t. Loops that run on fuel: indexOf, fromHex, Split and SplitBySpace,
-- on one round per byte or character and one more, and convert and convertHex, on one more round
-- than the magnitude of the number. All are shown to end within it: Split where the separator is
-- not empty, and fromHex on the text of a buffer. SplitCmdline has such rounds for its words
-- and, for the loop over the quotes of a word, as many as its argument says: one where the
-- command has no quotes. The others are by recursion on what is left of a list or of a count.
--
-- Parameters: the results of system calls are arguments of the operations that make them; what a
-- task does is the list of the tasks that it puts into the queue; the constants of termios.h are
-- a function from flags to bits; the transfers of the I2C bus, setsockopt, fcntl, inet_pton,
-- inet_ntop and the calls of the file system are functions; a floating point value is put into
-- the log stream as the text that snprintf makes of it; the time and the date of a log line are
-- texts, and what printf makes of a format is one.
--
-- Not modelled: floating point members of the buffer, the mutex of the loop, the file functions
-- that only call the system, the clock and the lock of the logger, and what a user's callback
-- does while it runs.
pub mod Base
pub mod ByteBuf
pub mod Event
pub mod Net
pub mod CLog
pub mod Device
pub mod SafeQueue
pub mod Pool
pub mod Utils
pub mod LogStream
pub mod Files
pub mod Tests
