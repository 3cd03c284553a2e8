-- ===== src/Lib.antt =====
-- asyncmsg: packets over TCP between clients and a server, with requests that wait for their responses.
--
-- The sources are the headers below asyncmsg/asyncmsg/. A packet (tcp/packet.hpp) is encoded into a frame:
-- a packed header with big-endian numbers (detail/byte_order.hpp), a checksum over the header
-- (detail/crc.hpp), and the body. A connection writes frames to its socket; what it reads goes
-- into a stream buffer (detail/io_buffer.hpp), from which frames are decoded one by one. A client
-- remembers the requests that it has seen lately (detail/lru.hpp), so that a request sent twice is
-- handled once.
--
-- Base        shared helpers: Boolean tests, lists over the native numbers, the bit operations
-- Crc         crc.hpp. `calc_crc8 bytes len` is calc_crc8(data, len), its loop `crc_loop`;
--             Crc/Table has the polynomial behind the table, Crc/Detect the errors found
-- ByteOrder   byte_order.hpp. The packets need htobe32, be32toh and the bytes of a uint32_t in memory: a
--             record `ByteOrder` with their laws, and an instance for each kind of host. `put32` and
--             `get32` write and read a header field. ByteOrder/Platform has the macros that the
--             header defines on each platform (`macros`) from what the platform provides, and the six
--             conversions; Platform/Order what they should do, and Platform/Network and
--             Platform/RoundTrip compare them with it
-- Packet      packet.hpp. `next_seq`, `make_packet` (the constructor), `packet_id`, `encode_packet`
--             and `decode_packet` with its loop and the scan for the begin flag. The sequence
--             generator is passed in and out. Packet/Frame has the wire format, Packet/Decode the
--             behaviour of the decoder
-- IoBuffer    io_buffer.hpp. `IoBuffer` is the view with the memory that it looks at; positions are
--             size_t and wrap. IoBuffer/Queue has the queue that the buffer implements
-- Lru         lru.hpp at uint64_t. List nodes are numbered, and the map holds those numbers, as the
--             program's holds iterators
--
-- Error       tcp/exception.hpp. What is thrown, as values
-- Connection  detail/connection.hpp. `process_packet`, a round of it on a decoded packet
--             (`handle_packet`), `receive_packet` and its rounds, `check_round`, and
--             send_packet_and_wait_rsp as `register_request` and `finish_request`, before and after its
--             wait. Callbacks and sends on channels are a list of events. Connection/Stream has the
--             frames of a stream, Connection/Device whose packets are passed on, Connection/Total the
--             receive loop on any input, Connection/Reads the loop without its tests for room
--             (`read_all`), Connection/Room where its reads go, Connection/Chunks a
--             stream that arrives in pieces (`receive_stream` gives each read what it has room
--             for), Connection/Request the requests that wait, Connection/Session many requests on
--             one connection, with their calls, packets and waits as turns in any order;
--             Connection/Life the receiving and the lifetime check side by side (`start`): when one
--             ends, the other is cancelled, but what had completed by then is still looked at; and the
--             whole sends
-- Context     the io_context and work guard that a server and a client stop with
-- Server      tcp/tcp_server.hpp. The callbacks and operations on the maps of connections and channels,
--             with connections and channels as numbers; Server/Connections has the routing,
--             Server/Tries the repeated sending, what it writes (`copies`) and the requests, Server/Life the server from its
--             constructor to its destructor as steps in any order, Server/Traffic the server and its
--             connections together: what a connection reports is the callback that `accept` has bound;
--             Traffic/Stream goes from the bytes of a device to the server's `reactions`
-- Client      tcp/tcp_client.hpp. The handlers; `pass_on` is on_receive_request behind its reply.
--             Client/Requests has the filter for duplicates, Client/Sending what is sent, Client/Life
--             the client with its loops as steps in any order, Client/Inbox with them the requests that
--             come and the waits for them
-- Ibuffer     base/ibuffer.hpp. `Heap` has the blocks that new gave out; `construct`, `destruct`,
--             copies and moves. Ibuffer/Copies has what a copy is, Ibuffer/Objects programs with many
--             buffers, each at an address, and Ibuffer/Owned who holds which block
--
-- Rpc         detail/rpc_protocol.hpp and rpc/. `build_request_packet`, `build_response_packet`,
--             `parse_body`, `call`, `wait_push`, `push`, and a round of each kind of handler. A class of
--             messages is a record `Messages` with the documented behaviour of protobuf. Rpc/Body has
--             what bodies are parsed to, Rpc/Serving the loops, Rpc/Remote the way of a packet from host
--             to host, Rpc/RoundTrip a call and Rpc/Push a push from end to end
-- Task        detail/coroutine_util.hpp. `do_context_aware_task`, over co_spawn as a parameter
-- Text        base/string_util.hpp and base/debug_helper.hpp. `random_string` on the numbers drawn;
--             `get_time_string` on the clock, with the C library's localtime as a parameter
-- Examples    examples/*.cpp, the tasks of the four programs; Examples/HelloWorld has the two tcp
--             programs together, Examples/Add the call between the two rpc programs, Examples/Pushes the
--             pushes from the one to the other, Examples/Device the device id of a client
--
-- What asio does is an input: the bytes or the error of a read, the end of a wait, the readings of the
-- clock. The waiting loop of a client runs on fuel, `timeout / 200 + 2` rounds, enough since a round
-- takes 100 milliseconds; `process_packet` runs on the number of bytes in its buffer and one more,
-- enough since every packet consumes some; the tries of a server are `max_tries + 1` as in the code.
--
-- Bytes are numbers below 256, strings are lists of bytes, and uint32_t and size_t are numbers with
-- the wrap-around written out. Memory is explicit where the code can leave it: the decoder
-- is given what follows its buffer in memory, and a read beyond that is the outcome `overread`.
-- The decoder's loop runs on fuel, one round for each byte of the buffer and one more; every round
-- that goes on consumes a byte, so the fuel is enough.
--
-- What a channel gives to the coroutine that waits on it is a parameter of Connection/Session, with
-- the documented behaviour that it was sent on this channel. In Server/Traffic the server holds its
-- connections by its map and its list, and whether something else holds one, as a pending request does,
-- is an input of each turn (`held`): a loop of a connection that nothing holds ends without a report. When
-- the check ends, the read is cancelled, unless it had completed already. The packets of one read are
-- turns of their own, so that other turns can come between them, which the code rules out. After a forced
-- stop a client takes no step but further calls of `stop`; a server, and the requests that come to a client,
-- go on in the model: there are more orders than the code has.
--
-- A decimal number is printed with at most ten digits, as an int has.
--
-- Not modelled: sockets, timers, threads and the order in which coroutines run (their results are inputs,
-- and the steps of a client, a server and its connections come in any order); the memory of a packet's body (it is the
-- list of its bytes); signals and timers of the examples; expected.hpp (a copy of another library, of
-- which rpc uses a sum type); config.hpp, a macro for asio; generated code and build files; and
-- concurrent use of the sequence generator.
pub mod Base
pub mod Crc
pub mod ByteOrder
pub mod Packet
pub mod IoBuffer
pub mod Lru
pub mod Error
pub mod Connection
pub mod Context
pub mod Server
pub mod Client
pub mod Ibuffer
pub mod Rpc
pub mod Text
pub mod Task
pub mod Examples
