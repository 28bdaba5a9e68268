-- ===== src/Lib.antt =====
-- print3d, the print server of Doodle3D. Frontends send commands over a local socket; the server
-- collects gcode from them in a buffer, and a driver sends it to the printer line by line.
--
-- The parts, each with the files of the repository that it models:
--
-- GcodeBuffer (src/drivers/GCodeBuffer.{h,cpp}): the buffer of gcode. State has its members as a
--   record and the operations on one chunk; Append the checks and the loop of append; Cleanup the
--   passes of cleanupGCode over one bucket; Lines has getNextLine and eraseLine. Clean is a one-pass
--   reference for the clean-up, and the modules below it relate the passes to it. Contents, Chunks,
--   Counts, Front, Packed and Sequence have the theorems on the whole buffer.
-- Ipc (src/ipc_shared.{h,c}, src/utils.c): the commands. Codes has the codes and their table, Wire
--   the numbers on the wire, Command the functions that build a command and take it apart, Devices
--   the search for serial devices, Stringify whether the text of a command can be made. Layout
--   describes a command independently, and RoundTrip, Arguments and Build hold the functions
--   against it.
-- Driver (src/drivers/AbstractDriver.{h,cpp}, MarlinDriver.{h,cpp}, DriverFactory.cpp, Serial.cpp,
--   readAndAppendAvailableData of src/utils.c): State has the members of a driver, Print the gcode
--   buffer and printing from it, Response what the Marlin driver does with an answer of the printer,
--   Firmware which driver is created for a name. Serial is the read buffer of the port, Port what
--   its system calls answer, Reading the loop that reads a descriptor, Connection the members of the
--   Marlin driver and opening, reading and closing its port, Update its turn. Framing, Turn,
--   Stop and Delivery have the theorems: on lines that arrive in pieces, on a turn, on a stopped
--   print, and on a print from its start to its end.
-- Makerbot (src/drivers/MakerbotDriver.{h,cpp}, S3GParser.h): State has the members of the driver and
--   its reading, Crc the checksum, Packets a packet and its response, Parser how the bytes that gpx
--   makes are cut into commands, Queue the queue of commands and its refill, Printing the turn and
--   the operations that the driver overrides. The other modules have the theorems.
-- Server (src/server/Client.{h,cpp}, CommandHandler.cpp, Server.{h,cpp}): Client has a client and its
--   replies, Handlers the functions hnd_* of the command handler, Dispatch runCommand and
--   runCommands, Loop the clients, the descriptors that are watched, and one turn of the loop of
--   Server::start behind select. A handler calls the driver of Driver, which calls the buffer of
--   GcodeBuffer, and reads its command with the functions of Ipc; the loop reads with Driver/Reading
--   and ends with Driver/Update. Streams, Transactions, Carried, Requests, Uploads, Watched and
--   Remaining have the theorems.
-- Frontend (src/frontends/communicator.c): Replies has what a reply means, Requests the commands
--   that the functions comm_* send, Results what these take from the reply, Packets how gcode is cut
--   into packets. The exchange with the server is the parameter `send_and_receive`; in Served it is
--   the server's runCommand.
-- Cmdline (src/frontends/cmdline): the command line client. Options has parseOptions and the
--   two forms of output, Actions, Sending and Queries the functions act_*, Dispatch handleAction,
--   Main the choice of a device and main. The communicator is the interface `Comm` of its
--   functions, each of which may crash; Frontend has what stands behind it. Supplied, Sound, Json,
--   Quiet and Answers have the theorems.
-- Prelude passes the library's names on, and has numbers, lists and byte strings. Tests runs the
--   model at concrete inputs.
--
-- How the code is modelled. A byte string is a list of numbers, and a C buffer is the list of its
-- bytes, so its length is not a second variable. int32_t counters of the buffer and the driver are
-- integers without a bound; sizes on the wire and the size test of append keep their wrap-around.
-- An operation that changes an object takes it and returns the new one; what is written to the
-- printer, to a client's socket or to the terminal is kept in a list, in order. `none` stands for a
-- crash: a null pointer that is read, a read past the end of a command, an exception that nothing
-- catches; in the Makerbot modules also for the exit of the server. Allocation succeeds, buffers are
-- shorter than 2^31 bytes, and logging is left out except where it crashes: a server that logs at the
-- level BULK (the parameter `bulk` of runCommand) makes the text of each command first. The sizes of the buffer are those of the default build
-- (GCODE_BUFFER_MAX_SIZE_KB 3072, GCODE_BUFFER_SPLIT_SIZE_KB 8), with a 64-bit size_t, on Linux.
-- Parameters stand for atof and atoi (`number`, `atoi`), for reading a file (`read_file`,
-- `file_error`) and for gpx (`gpx_convert`). What poll, read, ioctl, accept and getopt_long answer,
-- and what the clock shows, are arguments.
--
-- Fuel. The loop of append has one round for each byte of its text, and each round takes at least
-- one byte; the comment loop has the square of the length, since an erasure shortens the bucket and
-- a skip moves on; the newline loop has the length; runCommands has the length of its buffer, since
-- each command has at least four bytes; comm_sendGCodeData has the length of its text, since each
-- packet has at least one byte; the loop over the lines that a driver reads has the length of its
-- read buffer, since each line takes at least its newline; the loop over the clients has their
-- number; the refill of the Makerbot queue has two rounds more than the bytes that are buffered. The
-- theorems on these loops, apart from comm_sendGCodeData, show that this is enough.
--
-- Not modelled: system calls themselves, the flags of the serial port, opening and closing the
-- listening socket, forking and the start of the server (src/server/main.cpp), pauses,
-- comm_testTransactions, the texts that are logged, the settings, which call the uci library,
-- the timer, and the Lua frontend.
pub mod Cmdline
pub mod Driver
pub mod Frontend
pub mod GcodeBuffer
pub mod Ipc
pub mod Makerbot
pub mod Prelude
pub mod Server
pub mod Tests
