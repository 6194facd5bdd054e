-- ===== src/Lib.antt =====
-- A key-value store over InfiniBand: clients set and get values on a server by control messages
-- (eager), or, for large values, by RDMA into and out of the server's memory (rendezvous).
--
-- The parts, and the files that model them:
--   Prelude    shared names, lists over the native numbers, C strings, and integers as bytes.
--   Heap       `malloc`, `free` and `strcpy`: blocks of bytes by number. A pointer is the number of
--              its block; a read or write outside a block is `none`. Heap/Frame has the lemmas.
--   Database   LowLatencyProtocols/dynamic_array.h: the server's table. `head` is the list of all
--              allocated slots, so that an access past the end is seen. Table says when a table is
--              valid for a list of keys; Lookup, Insert, Status and Delete prove what the functions
--              do. The loop that insert, delete and get share is `find_index`, by recursion on the
--              number of slots.
--   Protocol   LowLatencyProtocols/kv_api.h: `set_control_message` and
--              `decode_control_message_buffer`. Layout describes each message apart from the code,
--              as a list of fields; RoundTrip relates the code to it.
--   Verbs      LowLatencyProtocols/ib_functions.c: posting and polling. The device is not part of
--              the repository: its answers to `ibv_post_send`, `ibv_post_recv` and `ibv_poll_cq` are
--              lists that the context carries, read in order. A call that needs more answers than
--              there are is `waiting`; so loops recurse on these lists and need no fuel.
--   Server     LowLatencyProtocols/kv_api.c: the handlers, named as in the code but in lower case,
--              and in Run the loop of `run_server`, one visit to a client at a time. The table is
--              seen through `view`: for a key, its value and whether it is in use. IsServing is the
--              invariant, and Stores what a handler that changes one key leads to. The lemmas stand
--              in Memory, Table, Mark, Register, Reply and Request; Bind, Keep and Found treat handlers
--              on any message and any answers of the device, SetGet a set and the get that follows it, and
--              Run/Invariant sequences of visits.
--   Client     LowLatencyProtocols/kv_api.c and main.c: `kv_set`, `kv_get` and `shut_down_server`.
--              Eager, Get and Rendezvous follow a call through the answers that it gets; what an RDMA
--              read brings is a list that the client carries.
--   Wire       LowLatencyProtocols/ib_functions.c: the wire form of a gid, and the table of MTU sizes.
--   Connect    LowLatencyProtocols/ib_functions.c: `pp_connect_ctx` and `pp_close_ctx`, over the answers
--              of the device as functions.
--   Exchange   LowLatencyProtocols/ib_functions.c: `pp_client_exch_dest`, `pp_server_exch_dest` and
--              `listen_to_websocket`, over what the socket calls answer. Digits and Printing have
--              the message, which is printed into and read from the bytes of `msg`; `none` is a
--              write or a read past an end, or a variable that `sscanf` leaves unset. Agree relates
--              the two hosts, and Closing follows the sockets.
--   Setup      LowLatencyProtocols/ib_functions.c: `pp_init_ctx`. Laws sets it against `pp_close_ctx`, by
--              a list of which resource uses which.
--   Open       LowLatencyProtocols/kv_api.c: `kv_open`, which calls Setup, Verbs, Exchange and Connect for
--              each remote host in turn, and `kv_close`.
--   Command    LowLatencyProtocols/main.c: the lines of an input file and the commands that they are, the
--              value that is made for a SET, and the client's throughput test. Unterminated follows
--              that value into `kv_set`. Main has `main`, and Closing what it leaves behind; a server
--              serves as many visits as the launch allows, and more are `waiting`.
--   Bandwidth  Optimization/bw_template.c: the measurement program with its own posting and waiting. The
--              device carries the completions that are to come, and what each poll finds. Waiting and
--              Exact treat `pp_wait_completions`, Batches sets it against one pass over the
--              completions, and Experiment, Latency and Throughput treat the tests.
--   Template   Optimization/bw_template.c: `main` around the measurement, as the parts that it calls.
--              Options has the command line, Context and Life the device's resources, Message and
--              Talk the exchange of destinations, which carry the address and the key of the
--              server's region, and Main the whole, where Attempt tells the end with status 1 from a
--              fault. Together and Writes follow a client and a server.
--   Release    what `pp_close_ctx` of both programs does, for any kind of resources, and the order in
--              which resources that use each other can be given back.
--   Baseline   Baseline/client.c and Baseline/server.c: the measurement over TCP. Calls has what the client
--              does with its socket, Serving the server, and System both as steps in any order; the
--              network chooses the pieces that `recv` brings. Pace and Ending follow such sessions.
--
-- The witnesses stand in the Tests modules.
--
-- Where the theorems on handlers assume that the device takes the answer (`Accepts`), the next answers
-- of the device are that the send is posted and completes. `Received` says that the receive
-- region holds a message of the protocol. The index of a search is an `int`, and to count it past
-- 2 ^ 31 - 1 is undefined: a table in order has fewer than 2 ^ 31 slots in use, and an insertion is
-- followed where it stays so. Allocation does not fail.
--
-- Not modelled: printing, time measurement, and the socket and device calls themselves, whose answers
-- are inputs; sizes, depths and counts on the command line of Optimization/bw_template.c that are
-- negative as an `int`. Memory that the receive and send regions share with pending device work is
-- taken to hold what the last completed receive left. `sscanf` is read without a
-- sign, and without `0x`. In the sessions over TCP a call of `send` takes all of its bytes, and the
-- connection does not break; they need no fuel, since each step lowers a bound on those left.
pub mod Prelude
pub mod Heap
pub mod Database
pub mod Protocol
pub mod Verbs
pub mod Server
pub mod Client
pub mod Wire
pub mod Connect
pub mod Exchange
pub mod Setup
pub mod Open
pub mod Command
pub mod Bandwidth
pub mod Release
pub mod Template
pub mod Baseline
