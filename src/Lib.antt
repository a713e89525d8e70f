-- ===== src/Lib.antt =====
-- tephra-js, the TypeScript client of the tephra event log: its wire codec, its framing, the checks
-- of its public values, a connection with its requests and streams, and the client over them.
--
-- A client makes an event or a query out of names that it checks (src/types.ts), turns the request
-- into a protobuf message by hand-written code (src/proto/messages.ts over the buffers of
-- src/proto/wire.ts), and puts a length prefix before it (src/framing.ts). What arrives from the
-- socket in chunks goes the other way: FrameDecoder takes whole frames out of the chunks, and
-- decodeResponse reads each of them. A connection (src/connection.ts) gives its requests ids, holds
-- them back by two semaphores (src/util.ts), writes them in one loop, and routes each response to
-- the promise or the stream (src/streams.ts) of the request that it answers. The client
-- (src/client.ts, src/options.ts) sends appends over one connection and reads over a pool.
--
-- The files:
--   Base      tests on numbers, lists, results and bits that the other parts share
--   Text      encodeUtf8 and decodeUtf8 of src/proto/wire.ts (TextEncoder and TextDecoder), over
--             strings as lists of UTF-16 code units
--   Wire      src/proto/wire.ts: Wire.Writer is class Writer with its growable buffer, Wire.Reader
--             is class Reader; Wire.Field states the wire format without a buffer, and Wire.Fields
--             is the loop over tags that every decoder of src/proto/messages.ts has
--   Messages  src/proto/messages.ts: a record WireX, encode_x and decode_x for each struct; the body
--             of a decoder's switch is x_field, and the struct it starts from is no_x. Messages.Format
--             describes the bytes of every message by proto/tephra/v1/tephra.proto
--   Framing   src/framing.ts: write_frame and FrameDecoder (push, has_partial)
--   Values    src/types.ts: the checks of names and tag sets, Event, QueryItem, Query and
--             AppendCondition
--   Convert   src/convert.ts: public values as wire structs and back, and the error codes of
--             src/errors.ts
--   Util      src/util.ts: Semaphore and Gate; Util.Fifo is a semaphore over a sequence of calls
--   Failure   the errors of src/errors.ts that a connection passes on
--   Streams   src/streams.ts: Sink, BaseStream and ReadStream; Streams.Calls and Streams.Order are
--             about a sink over a sequence of calls
--   Connection  src/connection.ts: the state of class Conn; Connection.Sending is its sending half
--             with the writer loop, Connection.Routing its receiving half, and Connection.Steps the
--             state machine. Tasks and Picking are about the functions that wait,
--             Connection.Invariant about permits, slots and the writer, Connection.Fates about
--             promises, by the table of Connection.Answers, Connection.Handshake about the hello,
--             Connection.Wire about a chunk on its way through all parts, and Connection.Batches
--             about what the writer gives to the socket
--   Options   src/options.ts: resolve_config
--   Client    src/client.ts: class Client; Client.Address is parseAddress, with the function Number
--             on strings as a parameter; Client.Rounds is about the round robin, and Client.Closing
--             about a connect that fails and a client that is closed
--   Examples  runs on small inputs
--
-- State and errors: a method takes the object last and returns it changed; a method that throws
-- returns a Result. Typed arrays are lists of bytes, bigints and numbers are natural numbers, and
-- what JavaScript does to their bits is written out: `value % 2 ^ 32` for `>>> 0`, the 64-bit mask,
-- the low eight bits that a typed array stores, and `Number(bigint)` as the nearest double.
-- Negative numbers and fractions are left out of the codec: no field of the protocol has one. Where
-- a caller may give a fraction or no finite number (options, the limit of a read), it is a case.
--
-- Concurrency: the program runs on one thread, from one await to the next. What a call leaves
-- waiting is kept as a task (who waits, for what, and what follows); resolving a promise makes its
-- task ready, and a ready task is resumed by an event of its own. A run is a list of events: calls
-- of the client, signals, calls on streams, events of the socket, tasks resumed at any place of the
-- list, and rounds of the writer. So every order in which the platform may run them is a run.
-- The socket is not modelled: its events come with what it gives (bytes, an error, a close, a
-- drain), and a round of the writer with what write returns, or that it throws. A promise that
-- waits at a semaphore is named by the id of its request, which waits once at a time.
--
-- Fuel: a varint of at most 64 bits takes ten rounds of the writer's loop; the reader's loops take
-- a byte in each round and are given one round more than the buffer has bytes; FrameDecoder takes
-- four bytes in each round and is given as many; the buffer's capacity doubles, so the room that is
-- needed bounds the rounds.
--
-- Not modelled: sockets, TLS and timers (src/transport.ts), ReadStream.collect, readAll and
-- readAllBack, which call next in a loop, the texts of errors, and the capacity limits of a
-- JavaScript engine.
pub mod Base
pub mod Text
pub mod Wire
pub mod Messages
pub mod Framing
pub mod Values
pub mod Convert
pub mod Util
pub mod Failure
pub mod Streams
pub mod Connection
pub mod Options
pub mod Client
pub mod Examples
