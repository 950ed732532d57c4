-- ===== src/Lib.antt =====
-- Verification of the RDMA key-value store: a server that keeps a hash table and serves it over TCP
-- or over RDMA connections (reliable RC, unreliable UC, datagram UD).
--
-- Parts and files. Paths are from the repository's root.
-- - Common, Common/Names, Common/CString: the protocol (src/common.h, src/common.c): `struct
--   request` is Request, `struct response` is Response, the name tables and conversions keep their
--   names; NUL-terminated strings and `strncmp`.
-- - Hash and below: the table (src/server/hash.h, src/server/hash.c). Hash/State has the store:
--   `ht` and a heap of items. Hash/Table and Hash/Entries have the functions under their names;
--   `search` is `search_key`. Hash/Model says what a store means, a list of chains of cells, one for
--   each bucket; Hash/Spec says what the functions do to a chain; the other files relate the two.
-- - KvStore and below: `set_request`, `get_request` and `del_request` (src/server/kvstore.c) in
--   KvStore/Handlers, with their effects one by one (Get, Set, Stored, Del), one after another
--   (Session), and outside the limits they take for granted (Limits, Prefix).
-- - Server and below: a worker thread. Server/Transport has src/server/server_utils.c and the
--   receive and send functions of the connection types, Server/Dispatch has
--   src/server/request_dispatcher.c and `recv_request`, Server/Worker has `main_job` of
--   src/server/kvstore.c. Server/Ring is about the ring of request buffers, Server/Turn about a round
--   of the loop, Server/Sequence and Server/SetGet about several rounds, Server/TcpSequence and
--   Server/UdTurn with Server/UdSequence about the same on a TCP connection and on the UD server,
--   Server/Faults, Server/Stale and Server/Held about rounds that go another way. Server/Pool has the
--   workers of a UD server together, as a relation of steps, with Server/Tally, Server/Order and
--   Server/Taken on the order of the requests.
-- - Verbs and below: the calls of libibverbs, librdmacm and sockets as a program type, and
--   src/rdma_common.c: Verbs/Buffers, Verbs/QueuePair with Verbs/Connected, Verbs/Completion with
--   Verbs/Polling and Verbs/Timeout on the polling loops. `post_send` is `post_send_wr`.
-- - Setup and below: starting a server and accepting a client (src/server/rc_server_utils.c,
--   uc_server_utils.c, ud_server_utils.c, tcp_server_utils.c and `accept_new_connection`), with
--   Setup/Posting on the receives that are posted before a client is accepted, and Setup/Accepted
--   with Setup/Quiet on accepting an RC client as a whole.
--   Setup/Startup has the options of the server, `server_init`, and `main` of src/server/kvstore.c,
--   with Setup/Numbers on its loop.
-- - Client and below: a client of each connection type (src/client): Client/Tcp, Client/Rc, Client/Uc
--   and Client/Ud have the functions under their names, Client/Dispatch has `send_request` and
--   `receive_response`; Client/Exchange is about a request and its response over RC,
--   Client/ExchangeTcp over TCP, and Client/Teardown about the end of an RC connection.
-- - Benchmark and below: src/benchmarking. Benchmark/Requests has the requests that it makes, with
--   Benchmark/Texts and Benchmark/Fits on their texts, and Benchmark/EndToEnd on
--   the answers to them. Benchmark/Instance has `start_instance`, with Benchmark/OneOp,
--   Benchmark/Recorded and Benchmark/Thread on what it returns; Benchmark/Report has
--   `data_processing`, with Benchmark/FileName and Benchmark/Processed on what it reports;
--   Benchmark/Main has the options of the benchmark and the end of its `main`.
-- - Base and Machine: shared helpers, and runs of C code with undefined behaviour as a fault.
-- - Tests: the theorems at concrete inputs.
--
-- How they interact. The dispatcher and the loop of a worker call the transport; the loop calls the
-- handlers, and these the table. A worker starts from the buffers and queues that Setup leaves. A
-- benchmark client makes a request and has Client send it and wait for the response; Report works on
-- the times that it returns.
--
-- Conventions. A state is passed and returned. Numbers are unbounded but where the code reduces them
-- (the hash and the capacity of the table, modulo 2^32), and where an int that counts up overflows,
-- which is a fault. An int that comes in a request is read as unsigned, so that a negative one is
-- beyond every array. A buffer is the list of its bytes, and a read or write outside it is a fault,
-- as are the use of a NULL pointer, of a pointer that was never set, and of one to freed memory. A
-- mutex that is held blocks. What `malloc`, the network and the kernel give is an argument. The
-- order in which messages complete posted receives is that of the posts.
--
-- Fuel. The walk along a bucket takes one more than the length of the chain. The polling loop takes
-- the number of completions asked for times the number of polls in which one comes. With a timeout, it
-- takes the number of calls in which the time goes by. The loop of a worker takes one for each request,
-- and a benchmark client one more than it has operations. The accept loop of the server does not end
-- and is taken a number of turns.
--
-- Not modelled: several threads at once, but for the ring and the lock of the UD server, so neither
-- races on the table nor which thread reads the shared arguments of the benchmark's threads; logging;
-- and giving memory back where nothing uses it again.
-- The sends and receives of an RC or UC connection complete on one queue, and the code does not tell
-- them apart; the worker thread's model gives each completion to the wait that it is meant for.
-- Times are whole microseconds, and rates, doubles in the code, are fractions. The options are what
-- getopt_long gives. The theorems on the answers of a worker that go another way are about RC and UC
-- connections, but for one on the lock of the UD server; those on sending and receiving in a client
-- are about RC and TCP.
mod Base
mod Machine
pub mod Common
pub mod Client
pub mod Benchmark
pub mod Hash
pub mod KvStore
pub mod Server
pub mod Verbs
pub mod Setup
pub mod Tests
