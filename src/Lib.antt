-- ===== src/Lib.antt =====
-- A verification library of LogMemcached, the memcached server that keeps its items in one
-- circular log.
--
-- BipBuffer (bipbuffer.c) is the byte buffer between a worker and the logger thread. Bounds has
-- its invariant, Fifo what its two regions mean, Run whole histories of offers and drains.
--
-- Memlog (memlog.c, and lru_maintainer_free of items.c) is the log that every item lives in.
-- Header is item_data of memcached.h; Layout says what a well-formed log looks like; Alloc is
-- about memory_allocate, Clean and Maintain about memlog_free_chunk, do_memlog_clean and the
-- maintainer, Reach about whole histories. Addresses are offsets from mem_base and the memory is
-- a function from the address of a header to the item there. The loop of memlog_free_chunk runs
-- on fuel of one round more than an eighth of the log, which is enough since every round frees at
-- least a byte.
--
-- Assoc (assoc.c) is the hash table from keys to item metadata. A chain is the list that h_next
-- strings together. Chains has the lemmas on one chain, Placed where items stand while the table
-- grows, Update what assoc_insert and assoc_delete do to lookups, Grow the rounds of the
-- maintenance thread, Rekey keys that change outside the table. The hash function and the keys in memory are parameters.
--
-- Items (items.c, and the counts of references of thread.c) is the item metadata over both: Link
-- has do_item_link, do_item_unlink and do_item_replace, Alloc do_item_alloc, Get do_item_get,
-- Renew do_item_touch, do_item_get_update and do_item_update. Map, Total, Others and Replace state
-- linking as updates of the map from keys to items, Held and Kept are about an item that is
-- referenced besides, Sizes about the size that a header claims. A state is the record Cache, and a pointer to
-- metadata is a number. An operation that fails an assertion returns none. What other threads do
-- while do_item_alloc sleeps is the parameter pause.
--
-- Store (do_store_item of memcached.c) is what every storage command ends in: a get of the old item,
-- a branch on the command, the link or the replacement, and the references given back. Set is
-- about keys that are not there, Over about those that are.
--
-- Binary (dispatch_bin_command of memcached.c) is the first step of a request in the binary
-- protocol; Lengths is about the lengths that it lets through. The function that the dispatcher
-- calls next is a value.
--
-- Requests is the commands behind that dispatcher, from the key that has been read to the answer:
-- Requests itself has the answers (add_bin_header, write_bin_error, write_bin_response), Values
-- process_bin_update, process_bin_append_prepend and complete_update_bin, Keys the gets, touches,
-- deletes and flushes, Complete complete_incr_bin and complete_nread_binary. Framing and Replies
-- are about a client that reads the answers, Deletes about process_bin_delete, Leaves about the
-- state of the connection that each command leaves. A length of a value that is negative as an int
-- is none there, since what the allocator then does is undefined.
--
-- Drive (drive_machine of memcached.c, with conn_new, conn_shrink, reset_cmd_handler,
-- try_read_network, bin_read_key and transmit) is the states of a connection with a client over
-- TCP. Receive has the states that read, Send those that write, Machine the loop. What the kernel,
-- libevent and the allocator answer in a round is the record Kernel, and the commands of a protocol
-- are the record Commands. Stream and Order are about the bytes over all rounds, Room is about the
-- read buffer that they fill, Progress about how near a state is to the end of a request, Reading and
-- Ends about loops over commands that satisfy the record IsLawful, which is a hypothesis there.
--
-- Queue (cq_push, cq_pop, cqi_new and cqi_free of thread.c) is the queue of new connections with
-- the free list of its items; Fifo relates it to lists, Run is about whole histories of it.
--
-- Delta (do_add_delta of memcached.c, safe_strtoull of util.c) is increment and decrement; the
-- number functions of the C library are the record Numbers. References is about the number and the
-- references that the early returns give back.
--
-- Replication (do_store_replication of memcached.c) is how a backup replays the log that it has read
-- from the primary. Backup has the state between two items, Stored, Steps and Erased what one item
-- does to it, Chain and Loop a run of items. The loop runs on fuel of one round more than there
-- are bytes, which is enough since every round passes a byte at least. The base of the log is
-- the address 0, so an offset is an address.
--
-- Ascii is the text protocol of memcached.c: Tokens has tokenize_command, Numbers safe_strtol and
-- safe_strtoul of util.c, Time realtime, Conn out_string and the part of the connection that the
-- commands change, Update process_update_command, Commands complete_nread_ascii,
-- process_touch_command and process_delete_command, Choice how process_command chooses among them,
-- Flush its branch for flush_all, Buffer how try_read_command finds a command in the bytes that have
-- come. A command line is the list of its bytes, and a handler gets the strings of its tokens.
-- Arithmetic has process_arithmetic_command. Listing is what process_get_command lists to be sent
-- for an item, with conn_release_items, and Get its loops over the tokens of a line and over what
-- the tokens leave; Keys, Passes, Line and Answer follow a key, a pass, the loop and the command,
-- Release and Reads the references that it takes, Stuck a get that is refused memory. The outer
-- loop runs on fuel, of which one round more than there are keys is enough while memory is granted.
--
-- Pool (cache.c) is the pool of objects of one size; Reuse is about its free blocks and the words
-- around the objects. Memory there is 64-bit words, and what malloc and realloc give is an argument.
--
-- Output (add_msghdr, ensure_iov_space and add_iov of memcached.c) is the lists of what is to be
-- sent; Sums is about the bytes in them over UDP. The loop of add_iov runs on fuel of one round more
-- than the buffer has bytes, which is enough while realloc succeeds, since a round then takes a byte.
--
-- Libc holds what the program asks of the C library, and Decimal an instance of it for the tests.
-- Base holds lists, tests, words and bytes in memory.
--
-- Threads and locks are not modelled: each function runs with the lock that the code takes.
-- Statistics and SASL logins, connections over UDP and listening ones, the transfer of the log,
-- sockets and statistics that are only printed are not modelled either.
pub mod Base
pub mod Libc
pub mod BipBuffer
pub mod Memlog
pub mod Assoc
pub mod Items
pub mod Binary
pub mod Store
pub mod Queue
pub mod Delta
pub mod Drive
pub mod Replication
pub mod Requests
pub mod Ascii
pub mod Pool
pub mod Output
