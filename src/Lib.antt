-- ===== src/Lib.antt =====
-- fakelua: a Lua implementation in C++, with a compiler to C, a register interpreter and a library of
-- native modules. This library models parts that compute on their own: the codec of the serialize
-- library, the protobuf wire format, UTF-8, the interpreter with its numbers, Lua patterns, the packets of the
-- net library, the pool of database connections and csv.
--
-- The parts, and the files that model them:
--
-- * src/native/serialize/wire_codec.cpp. The bytes that a Lua value is sent as. Varint.antt has
--   WriteVarint and ReadVarint, Wire/Zigzag.antt the zigzag code, Wire/Value.antt the values and the
--   heap of their tables, Wire/Encode.antt EncodeValue and WireEncode, Wire/Decode.antt DecodeValue and
--   WireDecode, and Wire/Args.antt ValidateStrict and the two functions on callback arguments. A table
--   is an address, and the heap gives its pairs in the order in which the iterator meets them. The
--   encoder's depth and visited set are passed down, its dictionary and its output threaded through.
--   Wire/Reify.antt unfolds a value of the heap to the tree that a decoder can build.
--
-- * src/interp/vm_ops.h and src/util/number_util.h. Interp/Word.antt has the operations on int64_t, as
--   patterns of 64 bits with the wrap-around written out, Interp/Value.antt the values (CVar) and the
--   operations on double, which are a parameter, Interp/Ops.antt the operations on values with their
--   errors (BinAdd to UnboxMulti), and Interp/For.antt ForLimitToInt, ForPrep and ForLoopInRange, with
--   what FORLOOP does to the values of a loop. Interp/Frame.antt has the registers of a call and their
--   boxes (VmSlot, VmWrite, VmWriteInt, VmClearBox), and on them the FORPREP and FORLOOP handlers of
--   src/interp/interpreter.cpp.
--
-- * src/interp/interpreter.cpp, opcode.h and func_proto.h. Interp/Machine.antt has the instructions and
--   the state, and Interp/Machine/Compute.antt what the handlers compute apart from the registers, with
--   the helpers of runtime.cpp that they call.
--   Tables, concatenation and calls are the fields of Services, over a world of theirs.
--   Interp/Machine/Handlers.antt has the longer handlers, Interp/Machine/Step.antt one clause for each
--   opcode and the loop over instructions, and Interp/Machine/Entry.antt the frame of a call and
--   InterpreterExecute. `has_boxes` is the parameter of the template. A jump out of the code, and an
--   index out of the constants, are undefined in the source, and give the error `undefined`.
--
-- * src/native/protobuf/protobuf_wire.h and protobuf_wire.cpp. Protobuf.antt has the fields of the
--   protobuf wire format, on the varint and the zigzag code above.
--
-- * src/native/utf8/native_utf8.cpp. Utf8.antt has EncodeUtf8 and DecodeUtf8.
--
-- * src/native/string/lua_pattern.cpp. Pattern/Class.antt has the classes and the sets of bytes,
--   Pattern/Item.antt the item that a pattern begins with (ClassEnd and the cases of Match),
--   Pattern/Match.antt Match with its captures and its loops, and Pattern/Search.antt MatchAt and
--   Search. Pattern/Relation.antt says when a pattern matches. The captures are passed down and come
--   back with a match, as a failed attempt restores them in the source.
--
-- * src/native/net/net_buffer.cpp. Net/Ring.antt has CircularBuffer, its array a list, Net/Queue.antt
--   what its clients use of it, as operations with laws, Net/Ring/Queue.antt the ring as such a queue,
--   and Net/Framer.antt WritePacket and TryParsePacket over any queue.
--
-- * src/native/mysql/mysql_connection_pool.cpp. Pool.antt has MysqlConnectionPool over a record of what
--   it uses of MysqlConnection. An entry owns a connection with its address, which is chosen when it is
--   allocated, and may be chosen again once it is freed. Pool/Tick.antt has Tick with its heartbeats and
--   reconnections, Pool/Looks.antt is about what it leaves behind, and Pool/Steps.antt makes the operations, the turns of Tick and the changes of connections steps of a state machine. Where
--   Tick ticks a connection, callbacks may use the pool; what they do is a parameter.
--
-- * src/native/csv/native_csv.cpp. Csv.antt has CsvParser, and Csv/Encode.antt EncodeField, EncodeRow and
--   the lines of CsvEncode. Rows are lists of strings: the conversions to Lua values are left out.
--
-- Base.antt gathers the library names, the lists, the bit operations, the integers and the result type
-- that the others share. The files named Tests have runs at concrete values.
--
-- Bounds and fuel. write_loop recurses on the number, which each round divides, and read_loop on the
-- bytes; encode_value and decode_value recurse on the depth that is left, kWireMaxDepth - depth, as
-- the source checks it, decode_pairs on the count it has read, and continue_sequence on the length
-- of the sequence. `match` recurses on what is left of kMaxCallDepth, and the rounds of its `goto
-- init` on one more than the length of the pattern: each round leaves a shorter one. The loops of
-- the csv reader have one round more than there are bytes, and each takes one at least. `steps`
-- takes the number of instructions to run, as code may loop forever. Nothing else takes fuel.
--
-- Not modelled: the front end and the generators of C and of bytecode, the tables that the
-- interpreter works on, the limit of the stack that its frames share, the JIT, the allocator, and
-- the native modules that are bindings or do I/O. The bytes of a double are its 64-bit pattern.
-- `size_t` is not bounded, the numbers of PoolConfig and the milliseconds of the pool's clock are
-- natural numbers. The lengths of NetConfig are not negative. Memory
-- that is asked for is given, as in the reserve of a count that is read from the bytes. An overflow of
-- `int64_t`, undefined in C++, has no result: `none`, and the error `undefined` where a value is due.
pub mod Base
pub mod Varint
pub mod Wire
pub mod Interp
pub mod Net
pub mod Protobuf
pub mod Utf8
pub mod Pattern
pub mod Pool
pub mod Csv
