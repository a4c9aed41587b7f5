-- ===== src/Lib.antt =====
-- A model of redis-lite (aphelo), a key-value server with a binary protocol, and of its client's
-- request writer. The server keeps its keys in a hash map that resizes progressively, the deadlines
-- of keys in a binary heap, sorted sets in a balanced tree, and answers pipelined requests of many
-- connections from one event loop.
--
-- How the parts interact: a connection (server.cpp: Conn, handle_read, handle_write) collects bytes,
-- cuts requests out of them (parse_req), gives each to `do_request` between response_begin and
-- response_end, and writes the responses. `do_request` works on the hash map (hashtable.cpp) and on
-- the timers (heap.cpp through heap_delete and heap_upsert of server.cpp); a timer knows the place
-- where its owner keeps the timer's index, and the heap writes that place whenever it moves the timer.
--
-- Files, and the code of the repository that each models:
--   Base           shared names, optional results (`Returns P o`: `o` has a result and it satisfies
--                  `P`), lists indexed by native numbers, counts of items, `bit_and`
--   HashTable      hashtable.h, hashtable.cpp: all functions, by their names. A chain of nodes is a
--                  list, `tab` an optional array of chains, `h_lookup`'s pointer to a link the bucket
--                  and the place in its chain. The loop of hm_help_rehashing is rehash_loop over
--                  rehash_step; the parts of hm_insert are first_init, h_insert, grow.
--   Heap           heap.h, heap.cpp: all functions. A HeapMem is the array with the memory that the
--                  `ref` pointers point into; put is the pair of writes a[pos] = x, *a[pos].ref = pos.
--   Ttl            server.cpp: heap_delete, heap_upsert
--   Bytes, Request server.cpp: buf_append, buf_consume, read_u32, read_str, parse_req; client.cpp:
--                  send_req up to its call of write_all
--   Reply          server.cpp: the tags, out_nil to out_end_arr, response_begin, response_size,
--                  response_end
--   Conn           server.cpp: Conn, try_one_request, handle_read, handle_write. The outcomes of read
--                  and write are arguments; do_request is a parameter, which may fault; the
--                  modelled one is in Dispatch.Request.
--   Number         server.cpp: str2int, with strtoll of the C library
--   Db             common.h: str_hash; server.cpp: Entry, g_data, entry_eq, entry_del, entry_set_ttl,
--                  do_get, do_set, do_del, do_expire, do_ttl, do_keys. An entry is known by its
--                  address; its `heap_idx` is the heap's memory at that address, and its node in
--                  the map carries the address. lookup_key is the search that the commands start
--                  with. The sorted set of an entry is of any type, and zset_clear on
--                  it is a parameter, for which Dispatch puts the modelled one. `tally` counts the nodes of a
--                  map that pass a test.
--                  Db.Expire is the second loop of process_timers.
--   DList          list.h: all functions. The pointers of all nodes are two functions from addresses;
--                  a ring is described by the sequence of its nodes.
--   Server         server.cpp: the fields of Conn and g_data that concern the table of connections and
--                  the idle list, handle_accept, conn_destroy, next_timer_ms, the first loop of
--                  process_timers, and main at the listening socket. The clock and the outcome of
--                  accept are arguments. IsServer is the invariant, IsAged the order of the list.
--   Avl            avl.h, avl.cpp. A node pointer is the subtree below the node and
--                  the path above it; rotations of a NULL child and failed assertions are `none`.
--   ZSet           zset.h, zset.cpp (znode_offset is in Dispatch.Sets). The tree and the map
--                  hold the addresses of nodes in one memory; node_at finds what a tree node's
--                  pointers lead to. A double is its 64-bit pattern, of which dbl_rank is the place in
--                  the order; NaN, which the server refuses, does not occur. IsZSet is the invariant.
--   Dispatch       server.cpp: str2dbl, do_zadd, do_zrem, do_zscore, do_zquery, do_request. strtod is a
--                  parameter: from a string, the double and the count of characters read.
--                  IsSafe is the invariant of the database with its sorted sets.
--   Tests          runs and instances on concrete states
--
-- Bounds and fuel. Sizes and indices (size_t) are numbers without a bound, since each unit of them
-- takes memory; uint32_t computations (lengths of the protocol, heights and counts of the tree) are
-- taken modulo 2 ^ 32, and the theorems about the tree ask for less than 2 ^ 31 nodes. `none` stands
-- for a fault, a failed assertion or exhausted fuel, so each theorem that an operation has a result
-- excludes all three. The fuel: heap_up has the index of the item, plus one, and each round at least
-- halves the index; heap_down has the length of the array, plus one, and the index grows; the loop of
-- hm_help_rehashing has its work limit and the number of buckets, and a round moves a node or goes on
-- to the next bucket; the request loop has the number of bytes, and a request takes at least 4; the
-- loop over ended timers has 2001 turns, after which the code stops it; the loop over idle connections
-- is given more fuel than there are connections; the output loop of do_zquery has two turns more than
-- the set has nodes, and each turn goes on to the next node.
--
-- Not modelled: the client's reader, the part of main's loop that serves the connections' sockets, the
-- system calls, and the tests and the benchmark. Memory is never exhausted, and calloc and new succeed.
pub mod Base
pub mod Heap
pub mod Ttl
pub mod Bytes
pub mod Request
pub mod HashTable
pub mod Reply
pub mod Conn
pub mod DList
pub mod Avl
pub mod Number
pub mod Db
pub mod Server
pub mod ZSet
pub mod Dispatch
pub mod Tests
