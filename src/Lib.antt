-- ===== src/Lib.antt =====
-- The C runtime of sprout-lang (runtime/): the library that compiled Sprout programs call for maps,
-- text, bytes, base64, hashes, JSON, HTTP, vectors, tasks, and channels between them. The compiler
-- emits calls of the runtime's functions; stdlib modules wrap some of them.
--
-- The parts, and the files that model them:
--
-- Prelude (Prelude.antt and Prelude/): lists, tests and integers over the native numbers, the
-- outcome of a call that may abort (sprout_fail), and the laws of `&`, `|` and `^` that the others
-- use. A machine word is a number; where C casts to a narrower type, `%` is written out.
--
-- Map (Map.antt and Map/): the persistent AVL map of runtime/sprout_runtime.c, bst_height to
-- map_keys. A node is the constructor `node` with key, value, height, size and two subtrees, NULL
-- is `nil`; nodes are never changed after they are made, so sharing needs no store. A node's size is
-- counted in full and read as the `int` that its low 32 bits are (Map/Sizes). Keys are Int or String. Map/Entries, Map/Insert, Map/Remove and Map/Select relate each function to the sorted
-- list of entries, Map/Balance and Map/Shape keep the AVL shape, Map/Laws and Map/Runs state what a
-- user of the map sees.
--
-- Text (Text.antt and Text/): the UTF-8 validator, the codepoint walks, slicing, indexing, and the
-- encoder, in runtime/sprout_runtime.c. A String is the list of its bytes, without the NUL at its
-- end. Loops over the bytes run on fuel, the length of the string: each round uses a byte at least.
-- Text/Encoding has the encoding of a list of scalar values, Text/Validate and Text/Decode compare
-- the validator with it, Text/Walks the walks; Text/Search has the byte-wise reads and str_find.
--
-- Base64 (Base64.antt and Base64/): base64 and byte-wise XOR of stdlib.crypto, in
-- runtime/sprout_runtime.c.
--
-- Bytes (Bytes.antt and Bytes/): the Bytes values of stdlib.bytes and the byte builder, in
-- runtime/sprout_runtime.c: Bytes/Slice reads, slices and appends, Bytes/Build has the builder's
-- chunks, Bytes/Words its big-endian integers.
--
-- Vector (Vector.antt and Vector/): the vectors of runtime/sprout_runtime.c, vector_empty to
-- vector_from_list. The operations in place work on a heap of objects, so every copy of a handle
-- sees them; the persistent ones return a new object. A new block holds arbitrary words.
--
-- Channel (Channel.antt and Channel/): the channels of the task scheduler,
-- runtime/sprout_scheduler.c. The system maps numbers to channels and tasks and has the ready
-- queue; `__chan_send`, `__chan_recv`, `__chan_close` and `__chan_select` are functions on it. An
-- operation that parks ends there, and what the task does when it is resumed is a function of its
-- own, so an interleaving is a sequence of these calls. Channel/Ring is the buffer, Channel/Queue
-- the abstract queue and the invariant, Channel/Fifo, Channel/Send and Channel/Close the theorems.
-- The only fuel is that of closing, the number of select waiters.
--
-- Handle (Handle.antt and Handle/): the handle table of the scheduler, runtime/sprout_scheduler.c,
-- handle_make to handle_lookup, by which a Sprout program names scopes, tasks and channels.
-- Handle/Stale is about handles that were released, Handle/Fresh about new ones.
--
-- Sha256 (Sha256.antt and Sha256/): SHA-256 and HMAC-SHA-256 of stdlib.crypto, in
-- runtime/sprout_runtime.c, byte by byte as the context absorbs a message. Sha256/Blocks has the
-- padding of the standard, Sha256/Digest and Sha256/Hmac compare the code with it.
--
-- Json (Json.antt and Json/): json_stringify's output of a Json value, json_append_hex4 to
-- json_append_value, and in Json/Service the strings of the analysis service's protocol,
-- sprout_json_escape to sprout_json_encode_string_array_from_vec_handle, all in
-- runtime/sprout_runtime.c. The parser's fuel is the length of what is left of the text: a round
-- passes a byte at least. Json/Strings and Json/Arrays read back what was written.
--
-- Http (Http.antt and Http/): the HTTP client's text in runtime/sprout_runtime.c. Http/Url has
-- parse_http_url; Http/Headers the lines of a header block, their lookup and http_content_length;
-- Http/Chunked the decoder of chunked bodies; Http/HeaderText http_headers_fill; Http/Reader the
-- reader that is called as bytes arrive, http_reader_init to http_reader_eof, with its two
-- enumerations. A pointer into a buffer is the rest of its bytes, and offsets stay numbers. Each
-- loop on fuel passes a byte at least in a round and is given the length of its input. Http/Scan
-- has the scans over bytes that all of them use; Http/Reader/Feed is the loop of http_request that
-- appends what recv gave and calls the reader; Http/Reader/Result makes the result of the response.
-- utf8_valid is that of the Text part.
--
-- Scheduler (Scheduler.antt and Scheduler/): the queues of runtime/sprout_scheduler.c, rq_push and
-- io_list_push to pump_loop and task_trampoline, with scopes, forks, awaits and yields. It has its
-- own record of a task, with the fields of the queues; the fields of the channels are in the
-- Channel part. The poller is an input: a round of the pump is given the events that it reports.
-- Scheduler/Queues is the invariant of the two queues, Scheduler/Wakes and Scheduler/Finish keep
-- it, Scheduler/Rounds follows a task through the ready queue while the tasks before it have their
-- turns. Scheduler/Drop has force_drop_task on a task that is parked in the poller, and __scope_cancel
-- as far as its walk over those, not the walk over the channels behind it; Scheduler/Kept,
-- Scheduler/Reclaim, Scheduler/Mine, Scheduler/Walk and Scheduler/Cancel are about it.
--
-- Not modelled: the garbage collector and its roots (values are kept by the model itself), context
-- switches (assembly and ucontext), I/O, TLS, DNS, the pollers, deadlines of tasks, cancellation of
-- tasks parked on channels, the sockets and requests of HTTP, regular expressions, and allocation
-- failure. The compiler and the standard library are written in Sprout.
pub mod Prelude
pub mod Map
pub mod Text
pub mod Base64
pub mod Channel
pub mod Handle
pub mod Bytes
pub mod Vector
pub mod Sha256
pub mod Json
pub mod Http
pub mod Scheduler
