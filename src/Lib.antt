-- ===== src/Lib.antt =====
-- Hypertable: a table store whose range servers keep sorted cells, found and coordinated through a
-- lock service, Hyperspace. The parts modelled here are those that carry the state and the formats
-- of the servers.
--
-- Serialization models Common/Serialization.h and Common/serialization-c.h, under src/cc: numbers
-- of fixed and variable length, byte arrays and strings, coded into a buffer and decoded from one
-- with a count of the bytes left. A decoder is a function from a cursor (the memory and the count)
-- to a value and a cursor, an exception, or a read outside the memory. Serialization/Fixed,
-- Serialization/Vint and Serialization/Strings hold the coders. The macros that the header defines
-- are functions here. A variable-length number has at most five bytes for 32 bits and ten for 64,
-- since each byte carries seven bits: these are the rounds that the recursions are given. The
-- little-endian branch is the one modelled.
--
-- ByteString models Common/ByteString.h: pointers to bytes behind their length, and their
-- comparison. Key models Hypertable/Lib/Key.h and Hypertable/Lib/Key.cc: the key of a cell, packed
-- so that it compares as bytes, and loaded again. Both are built on the coders of Serialization.
--
-- FileBlockCache models Hypertable/RangeServer/FileBlockCache.h and FileBlockCache.cc: the blocks
-- of files that a range server keeps in memory. Every method runs under one mutex, so that a
-- method is one step on the state; a failed assertion is `none`.
--
-- Hyperspace/Lock models the locks of a node in Hyperspace/Master.cc, with Hyperspace/NodeData.h
-- and Hyperspace/LockSequencer.h: `lock` and `release_lock`, each under the mutex of the node. The
-- database that stores the generation is an argument, a transaction that commits or does not.
--
-- Hyperspace/Session models the sessions of the clients of Hyperspace and their leases, in
-- Hyperspace/SessionData.h, Hyperspace/HandleData.h and Hyperspace/Master.cc: sessions are made,
-- renewed, destroyed and swept away when their lease has run out, and handles are opened and
-- closed. The session map leads by ids to the sessions of the heap. What the clock shows is an
-- argument. The loop of remove_expired_sessions has one round more than there are sessions as
-- fuel, which is enough since a round takes one out. Session/Handles and Session/Heap are about
-- the heap, Session/Keeps, Session/Sweep and Session/Calls about what every call keeps,
-- Session/Room about the room that the numbers of sessions and handles have in 64 bits,
-- Session/Lease about renewals, and Session/Orphan and Session/Leak about a handle that is left
-- behind.
--
-- ApplicationQueue models AsyncComm/ApplicationQueue.h: the queue from which the worker threads of
-- a server take the requests that arrive, one at a time of each thread group. `add` is two steps,
-- the count under the mutex of the usage records and the push under that of the queue. A history
-- is a list of events in the order in which the mutexes let them through; the requests that
-- workers have in hand, and those added and started so far, stand beside the queue.
--
-- RangeUpdateBarrier models Hypertable/RangeServer/RangeUpdateBarrier.h, by which the updates of a
-- range and the maintenance that splits or compacts it keep out of each other's way. A history is
-- again a list of events; a thread that sleeps on a condition does nothing until it is notified.
--
-- RequestCache models AsyncComm/RequestCache.h and AsyncComm/RequestCache.cc: the requests that
-- wait for a response, which time out in the order in which they were sent. The comparison of
-- times, `xtime_cmp` of Boost, is a parameter.
--
-- LocationCache models Hypertable/Lib/LocationCache.h and LocationCache.cc: the client's record of
-- which server has which range of rows. The loop that makes room for an entry has its number of
-- tests as fuel.
--
-- Types and ScanSpec model what servers and clients send each other: Hypertable/Lib/Types.h,
-- Types.cc, Timestamp.h, RangeState.h, RangeState.cc, ScanSpec.h and ScanSpec.cc. They are coded
-- by Serialization/Codec, where encoders and decoders are put in sequence. A C string is none
-- where its pointer is null, and else its characters.
--
-- CellCache models Hypertable/RangeServer/CellCache.h and CellCache.cc: the sorted map of the
-- cells that a range server has in memory, the copies that are made of it after a compaction, and
-- the allocations that the destructor frees. An entry is the allocation with its key taken apart;
-- the addresses are given by the caller. Deletes models the three buffers with which purge_deletes
-- keeps the deletes in mind, which Hypertable/RangeServer/MergeScanner.cc has too.
--
-- MergeScanner models Hypertable/RangeServer/MergeScanner.h and MergeScanner.cc, by which a range
-- server reads its cell cache and cell stores as one sequence: for queries with the deletes, the
-- interval of time, the row limit and the versions applied, and for compactions with everything.
-- The branches for the deletes are those of Deletes. The loops have the number of cells as fuel,
-- which is enough since each round takes one. MergeScanner/Queue and MergeScanner/Drain are about
-- the priority queue, MergeScanner/Passes and MergeScanner/First about the loops,
-- MergeScanner/Candidates about the deletes and the interval, and MergeScanner/Counts and
-- MergeScanner/Limits about the counters.
--
-- CellCacheScanner models Hypertable/RangeServer/CellCacheScanner.cc, with the members that it
-- reads of Hypertable/RangeServer/ScanContext.h: the scan of the map of a CellCache over a range
-- of keys and some column families. What it gives is one of the sequences that MergeScanner merges
-- (CellCacheScanner/Merged). ScanContext models Hypertable/RangeServer/ScanContext.cc: what a scan
-- takes in, from a ScanSpec and a Schema. ScanContext/Rows and ScanContext/Cells are about its
-- start and end row, ScanContext/Families, ScanContext/Asked and ScanContext/Overrun about its
-- tables of column families, and ScanContext/Reads about what a CellCacheScanner then gives.
--
-- Schema models Hypertable/Lib/Schema.h and Schema.cc: the access groups and column families of a
-- table, put together by the handlers of an XML parser. The parser is expat, so that a document is
-- a list of its events.
--
-- Checksum models fletcher32, and Checksum/Adler adler32 and adler32_wp, of Common/Checksum.cc,
-- with sums of 32 bits. The outer loops have the number of bytes as fuel, which is enough since a
-- round takes a byte at least. BlockHeader models Hypertable/Lib/BlockCompressionHeader.h,
-- BlockCompressionHeader.cc, BlockCompressionHeaderCommitLog.h and
-- BlockCompressionHeaderCommitLog.cc, the header in front of a block of a cell store or a commit
-- log. The virtual length is an argument. CellStoreTrailer models the serialized trailer of
-- Hypertable/RangeServer/CellStoreTrailerV0.h and CellStoreTrailerV0.cc.
--
-- Range models the split of Hypertable/RangeServer/Range.cc: the choice of the split row, the
-- three parts of a split, and the constructor that takes up a split from the state in the meta
-- log. Range/Divide reads back what was written to METADATA, Range/Resume is about a split that
-- was cut off. What the split reads of the access groups, the name of the transfer log, the
-- maximum size and the master's answer are an environment, and what it writes to the meta log,
-- METADATA and the master is a list. What ends the process, such as a meta log that cannot be
-- written, is left out.
--
-- Not modelled: the files and attributes of Hyperspace, which Berkeley DB keeps, and the delivery
-- of its notifications; sockets and reactors, the database and the file system brokers, which are
-- input and output; the compression codecs, which call other libraries; the query parser, and the
-- rendering of schemas; the files of cell stores and of the commit log, of which the headers and
-- the trailer are modelled; the maintenance of access groups but for what its scanners give, and
-- the maps of tables and scanners; and the tools.
pub mod Base
pub mod Serialization
pub mod ByteString
pub mod Key
pub mod FileBlockCache
pub mod Hyperspace
pub mod ApplicationQueue
pub mod RangeUpdateBarrier
pub mod RequestCache
pub mod LocationCache
pub mod Types
pub mod ScanSpec
pub mod Deletes
pub mod CellCache
pub mod Checksum
pub mod BlockHeader
pub mod Range
pub mod CellStoreTrailer
pub mod MergeScanner
pub mod Schema
pub mod CellCacheScanner
pub mod ScanContext
