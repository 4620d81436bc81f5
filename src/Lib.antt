-- ===== src/Lib.antt =====
-- A model of libamp, the C library for the Asynchronous Messaging Protocol, with its correctness
-- theorems. An AMP packet is a box of key/value pairs. A caller fills a box with typed values,
-- the box is serialized and written to the peer, whose parser rebuilds it from the pieces that
-- arrive, and dispatches it by its special keys.
--
-- The files, and the code that each models:
--   Common, Common/Tests, Common/Lists, Common/Int: shared names; no code of the program.
--   Memory, Memory/TestMalloc: mem.h (MALLOC, free, FREE) and mem.c (test_malloc and its
--     switches).
--   CString, CString/Laws: strcmp, strlen and memcmp on bytes; the hash functions of box.c
--     (hash_string) and dispatch.c (hash_responder_key).
--   Hashing, Hashing/Chain, Hashing/Buckets, Hashing/Writes, Hashing/Free: the chains and bucket
--     arrays that box.c and table.c share, and the loops that free them; a Hashing is a compare
--     function and a hash function with their laws.
--   Errors: the codes of amp.h, and results of calls that fill out parameters. ErrorText:
--     amp_strerror of amp.c.
--   Box: struct AMP_Box and box.c, each function under its own name (put_buf is _amp_put_buf and
--     get_buf is _amp_get_buf); Box/Serialize: amp_serialize_box. Box/Valid, Box/Put, Box/Delete,
--     Box/Congr, Box/Octets, Box/Plenty, Box/Stored and Box/Serialize/Length hold proofs.
--   Parser: the parsing fields of struct AMP_Proto and amp_parse_box of amp.c, one function for
--     each case of its switch. Parser/Stage is the abstract machine that it implements: the part
--     of a pair that has been read, and what the next byte does. Parser/Run, Parser/Represents,
--     Parser/Refine, Parser/Wire, Parser/Chunks and Parser/RoundTrip hold proofs.
--   Buftoll, Buftoll/Magnitude, Buftoll/Correct: buftoll and buftoll_range of buftoll.c.
--   Types, Types/Decimal, Types/Texts, Types/Integers, Types/Stored: types.c for bytes, C
--     strings, booleans and integers; Types/DateTime: AMP_DateTime_T, amp_put_datetime and
--     amp_get_datetime. Types/DateTime/Padded, Types/DateTime/RoundTrip and Types/DateTime/Sound
--     hold proofs. Types/Double: amp_put_double and amp_get_double, on a record Arithmetic of
--     what they take from C: the constants, the operators, the tests of math.h, and the text of
--     "%.17f"; Types/Double/Laws and Types/Double/Sound hold proofs.
--   Table, Table/Laws, Table/Refine: Table_T of table.c (table_put is Table_put, and so on).
--   Dispatch, Dispatch/Laws: the callback and responder maps of dispatch.c.
--   Messages, Messages/Laws: chunks, requests, responses, errors and results of amp.c and amp.h
--     (_amp_new_request_from_box is new_request_from_box, and so on).
--   Calls, Calls/Laws, Calls/Outcome, Calls/Written, Calls/Steady: amp_next_ask_key,
--     _amp_do_write, _amp_call, amp_call and amp_call_no_answer of amp.c, on a Peer, the fields
--     of struct AMP_Proto that they use. An Output holds the write handler with its argument, any
--     function that takes the buffer and returns a code and a Peer, and the log handler;
--     amp_set_write_handler and amp_set_log_handler set them.
--   Log: amp_log and amp_stderr_logger of log.c. Handlers: what the application's handlers are (a
--     record Application of functions), and _amp_send_unhandled_command_error, amp_cancel,
--     amp_add_responder, amp_remove_responder and amp_respond of amp.c. Handlers/Reply,
--     Handlers/Respond and Handlers/Refusal hold proofs.
--   Packets: _amp_process_full_packet of amp.c, with one function for each kind of packet.
--     Packets/Steady, Packets/Answers, Packets/Commands, Packets/Failures, Packets/Maps,
--     Messages/Steady and Memory/Plenty hold proofs.
--   Connection: struct AMP_Proto, amp_new_proto, amp_reset_proto, amp_free_proto and
--     amp_consume_bytes of amp.c (dispatch_box is the part of its loop that handles a full box).
--     Connection/Machine is the abstract machine of a connection: a byte is fed to the parser's
--     machine, and at the last byte of a box the packet is handled and a new box begun.
--     Connection/Reachable has the relation of the states that the calls of an application lead
--     to. Connection/Refine, Connection/Loop, Connection/Chunks, Connection/Returns,
--     Connection/Life, Connection/New, Connection/Maps and Connection/Operations hold proofs.
--   Rpc/Packet, Rpc/Request, Rpc/Answer, Rpc/Refusal, Rpc/Failure: proofs about two protocol
--     objects, with the bytes that one side writes given to the other.
--   Examples/Server: sum_responder, do_write (server_write), conn_readcb and listener_cb of
--     examples/asyncserver.c, on a record Libevent of the functions of libevent. Examples/Client:
--     Sum_State_T, do_sum_call, resp_cb and do_write (client_write) of examples/sumclient.c, on a
--     record System of fprintf, printf and send. A call of exit is a result (exited).
--     Examples/Sum, Examples/Session, Examples/Programs, Examples/Run and the files below
--     Examples/Server, Examples/Client and Examples/Session hold proofs about both programs.
--   LinkedList, LinkedList/Laws: list.c.
--   Tests: runs at concrete inputs.
--
-- How the state corresponds. Functions that change a struct take it and return the new one, with
-- the Memory threaded through. malloc is the environment: a function says which of its calls
-- succeed, and Memory counts the calls, the blocks handed out and the blocks freed; block addresses
-- are not modelled. So `release` counts and does not say which block is freed, and the theorems on
-- memory balance these numbers: a block freed twice beside one that leaks would balance too. A
-- `char *` with its size is a list of bytes. `box->size` and `table->size` are
-- the lengths of the bucket arrays, and a chain is the list of its bindings. Arithmetic on
-- `unsigned int` wraps with `% 2 ^ 32`; a C `int` that may be negative is a ℤ. A plain `char` is
-- signed in hash_string. Keys of tables are pointers in C; here they are what the pointer shows,
-- which holds while the application leaves the strings alone, as the code asks of it.
--
-- Handlers. Responders, callbacks, the write handler and the log handler are parameters: functions
-- of what they are given, of the Peer and of the memory. The Peer has a field for the application's
-- own data, and so a handler may make and cancel calls, answer, and add and remove responders while
-- it runs. It cannot reach the parsing fields: a handler neither feeds, resets nor frees the object
-- that calls it. A result `none` stands for undefined behaviour: a null pointer that is followed, or
-- an array that is left.
--
-- Bounds and fuel. The loop of the parser runs on fuel, two more than twice the number of bytes,
-- which is enough since every second round consumes a byte. The loop of amp_consume_bytes has
-- one more than the number of bytes, since every round consumes a byte. A decimal text is computed
-- with room for 20 digits, enough for every 64-bit integer. All other loops are structural.
--
-- Ints that are not bounded here. amp_serialize_box adds up the size of a packet in an int, which
-- overflows above INT_MAX bytes; the model of it does not, and so the theorems that serialize a box
-- speak of the code for packets up to that size. int_size_loop of Box/Serialize is the loop with
-- the bound of an int. The code also keeps strlen in an int: strings have less than 2^31 bytes.
--
-- Not modelled: unix_string.c; the field
-- get_fail_code, which only the test build has; of the examples, the main functions, the callbacks
-- for output and for events, the benchmark and the helpers, since they mostly call the system; ampc,
-- and the copy of jansson.
pub mod Common
pub mod Memory
pub mod Hashing
pub mod CString
pub mod Errors
pub mod ErrorText
pub mod Box
pub mod Parser
pub mod Tests
pub mod Buftoll
pub mod Types
pub mod Table
pub mod Dispatch
pub mod Messages
pub mod LinkedList
pub mod Calls
pub mod Log
pub mod Handlers
pub mod Packets
pub mod Connection
pub mod Rpc
pub mod Examples
