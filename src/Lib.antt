-- ===== src/Lib.antt =====
-- The routing daemon of dhttp: a node serves requests for objects over TCP and keeps, by link state
-- announcements over UDP, a table of routes to the nodes that have them.
--
-- The parts and their files
--   Darr        src/darr.c, src/darr.h: the growing array of node ids. `block` is the memory behind
--               `arr`, so that an access past its end is a fault.
--   Ht          src/ht.h, src/ht.c: the chained hash table of the macros HT_INSERT, HT_FIND and
--               HT_REMOVE. Keyed holds the two functions of a table and their laws, which Ht/Keys
--               has for both pairs; Config and Lsa name the tables of the program.
--   StrHelper   src/str_helper.c: numbers in text and the binary search for a word. The state of errno
--               is an argument and a result.
--   BufCtrl     src/buf_ctrl.c: the chain of receive buffers and the reader on it. The chain grows
--               between two calls of the parser, so it is an argument; a location is a Cursor.
--   Parser      src/parser.c: the state machine of requests, one function for each of its own.
--   Config      src/config.c: the neighbours, the local objects and the files they come from.
--   Lsa         src/lsa.c: the announcements and their table.
--   Dijkstra    src/dijkstra.c, `dijkstra` and `get_next_hop`.
--   RouteTable  src/dijkstra.c, from the announcements to the routing table and its lookup.
--   Pft         src/pft.c: the prefix tree of the objects' names, a binary tree of peers and children.
--   Forward     src/forward.c: the lookup of an object.
--   Pending     src/client_info.c, lsa_create_* of src/lsa.c and process_retran_timeout of
--               src/sel_timeout.c: the packets that wait to be sent or acknowledged. An address is
--               of any type, with its comparison and the address of a node as the record Addrs.
--   Router      src/client_info.c, clnt_process_rt_inf, and src/sel_timeout.c: the daemon's state as the
--               record Daemon, what a packet of another node does to it, and what the passing of
--               time does. A setting holds what stays: the node's id, its objects, the intervals
--               and the answers of the allocations.
--   Resp        src/resp.c: the text of a response.
--   Clients     src/client_info.c, process_clnt_request.
--   ClientTable src/client_info.c: the record of a socket in clnt_set, from create_clnt_info to
--               remove_clnt_info, with recv_clnt_data and get_next_fd.
--   EventLoop   src/rt_ctrl.c: process_read and process_write over the state World, which has the
--               clients, the two sets of sockets and the daemon.
--   Routed      src/routed.c and the rest of src/sel_timeout.c: the arguments, the start and the loop
--               over select.
--   Base        what the others share: lists as arrays, faults, loops, the integers of C.
--   Tests       runs at concrete inputs.
-- A client's bytes go into the chain, from which the parser takes a request. ADDFILE adds to the objects
-- of Config, which make the local announcement of Lsa; the table of announcements makes the graph of
-- RouteTable, and the search of Dijkstra over it the table of routes. GETRD asks Forward, which has the
-- nodes of an object from Pft and the costs from RouteTable. Announcements leave through Pending.
-- Routed calls EventLoop for the sockets that are ready and Router for the time that passed; EventLoop
-- calls ClientTable, Clients and Router.
--
-- How the code is read
--   A global or static variable is an argument and, where it is changed, a result. A run that may read
-- outside a block or what was not set, follow a null pointer or fail an assertion is a Run: a value or a
-- fault. A call of
-- malloc, realloc or fopen takes its answer, true for success; so do accept, recv, select and what waits
-- at the routing socket, in the records Answers, Round and Platform. A result 0 is true and -1 is false, or
-- `none` where an index or a pointer is due. A byte is a number below 256, and a C string the list
-- of its bytes before the last 0. Unsigned counters keep their wrap-around.
--   Fuel: `parse_loop` has 6 rounds, one for each state; `skip_spaces` and `read_word` one more than the
-- chain has bytes; the binary searches one more than there are entries; `get_next_hop` one more than
-- INFINITY, which no distance exceeds; the loops over a file one for each byte; a
-- pass over the sockets one more than FD_SETSIZE. A result
-- `out_of_fuel` is of the model alone.
--   The search of Dijkstra checks every access of graph, d, prev and visited; Dijkstra/Plain says what its
-- loops compute where all of them are inside, and Dijkstra/Checked that they are.
--
-- What is not modelled
--   The wrappers of socket, bind and listen, the usage message and the printing are input and output.
-- HT_REMOVE_ALL and str_to_num_by_delim are used by no code. The outbox of the routing socket stands for
-- the field pd_lsa_head, which no other socket uses.
pub mod Base
pub mod Darr
pub mod Ht
pub mod StrHelper
pub mod BufCtrl
pub mod Parser
pub mod Dijkstra
pub mod Config
pub mod Lsa
pub mod RouteTable
pub mod Pft
pub mod Forward
pub mod Pending
pub mod Router
pub mod Resp
pub mod Clients
pub mod ClientTable
pub mod EventLoop
pub mod Routed
mod Tests
