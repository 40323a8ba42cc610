-- ===== src/Lib.antt =====
-- Pire2Pire, a peer-to-peer file sharer in C: a daemon keeps connections to other daemons and serves
-- local clients by lines of text. These modules model the parts of it that hold its logic.
--
-- The parts, and how they meet:
-- - A line comes from a connection (Socket: daemon/util/socket.c and util/string.c in trunk). The
--   handlers (Handler: trunk/daemon/client_handler.c and daemon_handler.c) choose the function of a
--   request by the start of the line, limit the requests that run at a time, and check how a daemon
--   that connects identifies itself. Handler/Dispatch has the choice, Handler/Clients and
--   Handler/Daemons the two loops (both named `handle_requests`, as in the source), Handler/Identify
--   the function `handle_daemon`.
-- - The requests (Requests: trunk/daemon/client_requests and daemon_requests) parse their line by
--   `cmd_parse` (CmdParser: trunk/daemon/util/cmd_parser.c) or by `cmd_to_argc_argv` (Cmd:
--   trunk/daemon/util/cmd.c). Requests/Connect is client_request_connect.c. A file goes from one daemon
--   to another by four requests: Requests/Listing is daemon_request_list.c, which offers it with its
--   key; Requests/Files is daemon_request_file.c, which puts the offer into the cache, and
--   client_request_get.c, which asks for it; Requests/Serve is daemon_request_get.c, which announces and
--   sends it; and Requests/Ready is daemon_request_ready.c, with the list of downloads of dl_file.c and
--   the loop in Requests/Receive. Requests/Neighbours is daemon_request_neighbourhood.c and
--   daemon_request_neighbour.c, Requests/Raw is client_request_raw.c, and Requests/Console has the
--   requests that only answer (client_request_unknown.c, client_request_set.c, client_request_info.c,
--   the broadcast of client_request_list.c, daemon_request_unknown.c). Requests/Search has the lock
--   under which client_request_list.c sets `list_client`, and its reader in daemon_request_file.c.
-- - The cache of the files that others offer is FileCache (trunk/daemon/file_cache.c). The peers are
--   client.c and daemon.c in trunk/daemon: Peers/Send has the sending of whole messages under the lock of
--   a socket, Peers/Links the doubly linked lists of peers and of requests (client_request.c,
--   daemon_request.c) on a heap of nodes, where a read or write of a node that is not there is a fault.
--   The handlers see these lists from their heads.
-- - The preferences of a daemon are Conf (trunk/daemon/conf.c); Server is `create_dir` of main.c.
-- - HoleMap and ThreadPool are hole_map.c and thread_pool.c of branches/block_by_block/daemon: the
--   ranges of a file that are missing, and a pool of worker threads. ThreadPool has the queue of jobs,
--   ThreadPool/Workers the threads: a relation between states, with one step for what a thread does
--   between two releases of the mutex, in any order.
-- - Pooled is branches/block_by_block/daemon where it goes beyond trunk. Pooled/Dispatch has the choice of
--   a request's function and pool (is_cmd.h, client_handler.c, daemon_handler.c). Pooled/Sessions is the
--   life of the requests: client_request.c, daemon_request.c, and the loops and clean-ups of the two
--   handlers, on the queues of ThreadPool. Its `step` runs what one thread does between two releases
--   of a lock; an event names the thread, so that a list of events is an interleaving. Pooled/Server
--   is the loop of main.c that accepts connections, with the counts that the handlers take back.
--   Pooled/Blocks is daemon_request_ready.c, which downloads a block of a file; Pooled/Seeders is
--   client_request_get.c; Pooled/Conf is conf.c; Pooled/Bind is `socket_init` of util/socket.c.
-- - Client is the program trunk/client: the port it connects to, what it reads, sends and prints.
-- - Base has the types, lists, C strings and decimal numerals that all share.
--
-- A function keeps its name from the source. State that a function changes is an argument and a part
-- of its result. What the system answers (memory, `recv`, `send`, `write`, `pthread_create`, `connect`)
-- is an argument: a Boolean, or a list with one answer for each call. A wait on a semaphore is a test
-- of its count, and an outcome of its own where the count is 0; so are writes and reads at a wrong
-- address, where the code can make them. An `int` that is parsed from text is its 32-bit pattern.
--
-- Fuel: `cmd_parse` gives its loop a round more than the command has bytes, and each round takes one at
-- least. The loop of a handler over the options takes its fuel as an argument; it needs a round for each
-- word that is left, and one more. A search or count along a linked list takes its fuel as an argument,
-- and needs one round for each node. All other loops recur on a list: of bytes, of nodes, or of the
-- answers of the system.
--
-- Not modelled: the release of memory that no property depends on; logging; the terminal; signals;
-- the start of the daemon and its `select`; the flush of a stdio stream; a token that is too long
-- for `fscanf` in trunk/daemon/conf.c (Pooled/Conf has it for the copy); the waiting time of list;
-- the requests download, help and error, which only print; the digest MD5, which is an argument; and
-- the other branches, which are copies of the same parts.
pub mod Base
pub mod CmdParser
pub mod FileCache
pub mod HoleMap
pub mod ThreadPool
pub mod Socket
pub mod Peers
pub mod Pooled
pub mod Cmd
pub mod Conf
pub mod Handler
pub mod Requests
pub mod Client
pub mod Server
