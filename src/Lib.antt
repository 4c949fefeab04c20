-- ===== src/Lib.antt =====
-- A proxy in front of redis servers, in C++: it reads requests of clients, sends the keys of a
-- request to the shards they belong to, and answers when all of them have. The plugin for a
-- protocol, the event library (deps/libevent), the load balancing library (deps/slb) and the hash
-- map (bsl) are outside; what the code does with them is a log of effects, or a parameter where
-- it uses their answer.
--
-- Router models router.cpp. Router/Sort has `_quicksort` on the array of the requests of a batch,
-- Router/Acquire the loops of `router_acquire_shards`, Router/Shards the table of
-- `_shard_init_part` and `_shard_func_part`, Router/Switch the two halves of the pool tables:
-- `router_init`, `router_build`, `_shard_build_pool`, `router_destroy`, `_router_on_destroy`,
-- `_get_shard`.
--
-- Pool models pool.cpp and pool.h. Pool/Links and Pool/Waiting have the lists of a server with
-- their pointers, Pool/Server the operations on one server, Pool/Balance the choice of a server,
-- and Pool/Build the pool with its servers and the calls on all of them. Pool/Server/Ledger says
-- what a server is for without pointers: where each connection is, who waits, what is asked for.
-- Its `May` is what the plugin and the requests keep to. The plugin's answers to `m_createCb` and
-- `m_destroyCb` are later calls of `on_connect_created` and `on_connect_destroyed`; a plugin that
-- answers before the call returns is the same sequence of calls, except in the loop of
-- `_pool_server_destroy`.
--
-- Req models req.cpp with the error numbers of store_error.h and `req_t` of proxy.h: the sub
-- requests of a request, `req_process`, the callbacks of the pool and the plugin, the timeout,
-- and `req_done`. It runs the actions of Router/Acquire (`run_actions`); a sub request gets its
-- connection from the pool by one of the outcomes of Pool/Server (`Fetch`). `Life` tells whether
-- the memory of the request is in use; code that comes to a freed request, or reads through NULL,
-- breaks it, and nothing is run behind that (`touch`). Req/Release has any run of a request as a
-- list of events and counts its connections (Release/Effects, Release/Held).
--
-- Event models the custom events of event.cpp: the list with many producers and one consumer,
-- write by write, and its dispatch. Meta models parts of meta.cpp: Meta/Partition the parser of a
-- partition, with a printer (Print, RoundTrip) and the way from the texts to the table of
-- router.cpp (Routing), Meta/Auth the users, Meta/Load the services of a configuration and their
-- places in the partitions. Examples applies the theorems to concrete inputs. Base has the shared
-- names.
--
-- Connection models connection.cpp: `nshead_conn_read` as a loop over the bytes that libevent has
-- buffered (Connection/Loop and Frame take it apart, Chunks feeds it piece by piece) and
-- `nshead_conn_write`. Server models server.cpp on top of it: `accept_cb`, the callbacks,
-- `server_process_done`; Server/Steps is what may happen to a client, Server/Life its phases. The
-- layout of a head and the memory that malloc gives are the record `Wire`.
--
-- Log models log.cpp and log.h: the data of a line and the line (Log/Line), the ring between
-- `log_printf` and `log_thread_loop` (Log/Buffer), for each of the two logs. The thread takes its
-- turns between the lines, and in Log/Buffer/Runs each fwrite writes all that it is given. Memory
-- models mem.cpp, WhiteList ip_whitelist.cpp with `assign_whitelist` of server.cpp, Hash hash.h
-- and tools/shardtool.cpp, File the names of files of file.cpp and, in File/Directories, the
-- creation of directories, for any system calls (`FileSystem`).
--
-- Numbers: an `int` that counts is an integer or a natural number without a bound, since the
-- code's counts stay below the number of keys, connections and servers; `unsigned int` in the
-- parser wraps at 2 ^ 32, and the hash of a key is cut to 16 bits. Fuel: `quicksort` takes the
-- length of the range, `destroy_free` the number of connections of a server,
-- `timeout_connect_cleanup` the number of sub requests, `custom_event_cb` the number of entries,
-- `load_words` the length of the text, `nshead_conn_read` two turns, `create_dir` one more than
-- the slashes of the path, `efree_all` the number of blocks; the theorems below ask for no more.
-- The words of the hash wrap at 2 ^ 64, and the size of a ring is a parameter (`log_buf_size` in
-- the code).
--
-- Not modelled: the texts and numbers of a database that are only copied from the configuration
-- file, the start of the server and of the threads, the reopening of the log files, the listing
-- of directories, and the loading of plugins: they only call the system or other libraries. The
-- reload of the configuration is not modelled either, since it stands on the first half of
-- `_meta_load_conf`.
pub mod Base
pub mod Pool
pub mod Router
pub mod Req
pub mod Event
pub mod Connection
pub mod Server
pub mod Log
pub mod Memory
pub mod WhiteList
pub mod Hash
pub mod File
pub mod Meta
mod Examples
