-- ===== src/Lib.antt =====
-- The memory storage of libtorrent-go and its upload plugin.
--
-- The program's own C++ code is memory_storage.hpp, a `storage_interface` of libtorrent that keeps the
-- pieces of a torrent in a bounded number of memory buffers, and upload_plugin.cxx, a torrent plugin.
-- libtorrent calls `writev` with the bytes of a piece and `readv` to serve them; the Go side calls
-- `read`, sets the memory size and says which pieces are reserved or read. A write gives the piece a
-- buffer (`get_buffer`); when the counter `buffer_used` reaches `buffer_limit`, `trim` evicts the
-- pieces that were touched least recently, and tells the torrent that they are gone (`restore_piece`).
--
-- Files and what they model:
--   Base              signed integers over native numbers, lists, tests, and the type of results
--   Slots             the link between pieces and buffers (`bi` and `pi`), for any two lists
--   Piece             memory_storage.hpp, struct memory_piece
--   Buffer            memory_storage.hpp, struct memory_buffer, and the copying loops of readv and writev;
--                     Buffer/Copy, Buffer/Windows and Buffer/Clip have the lemmas on them
--   Storage           memory_storage.hpp, struct memory_storage: its members and its environment
--   Storage/Valid     the well-formedness of a storage; Storage/Update keeps it under a change in place
--   Storage/Evict     is_reserved, is_readered, find_last_buffer, restore_piece, remove_piece, trim
--   Storage/Alloc     get_buffer, get_read_buffer, get_write_buffer
--   Storage/Setup     the constructor, set_memory_size, set_torrent_handle, enable_logging,
--                     disable_logging, update_reader_pieces, update_reserved_pieces
--   Storage/Transfer  read, readv, writev; Transfer/Parts takes writev apart, Transfer/Bounds has the requests
--                     that reach past the end of a piece or start behind it
--   Storage/Info      get_buffer_info
--   Storage/Callbacks the other overrides of storage_interface
--   Storage/Account   the counters buffer_used and buffer_limit while no piece is reserved; Account/Single is
--                     about torrents of one piece
--   Storage/Machine   sequences of calls on one storage: Machine/Total is about calls that come back,
--                     Machine/Frame about what they leave alone, Machine/Counting and Machine/Counters about how far
--                     the counters go; Storage/Memory bounds what the buffers take
--   Storage/Cache     the storage as a cache from pieces to their bytes, which is its abstract specification:
--                     Cache/Refines and Cache/Calls have what each call does to it, Cache/Lasting how long
--                     bytes last
--   Storage/Clean     the zero bytes in buffers that are not in use, and what a piece shows that comes into memory
--   Storage/Threads   the calls in parallel, as steps of threads that share the storage and m_mutex; Threads/Place has
--                     where a thread stands, Threads/Lock the lock, Threads/Changes and Threads/Kept what a step
--                     does to the storage and to the pieces in memory, Threads/Bytes, Threads/Sections and
--                     Threads/Steps the steps one by one, Threads/Fit and Threads/Safe what holds of a thread
--                     where it stands, Threads/Invariant what always holds, Threads/Holder the lock's holder,
--                     Threads/Progress whom a thread waits for, Threads/Clean the buffers that are not in use,
--                     and Threads/Effects and Threads/Cache the lossy cache that the threads share; Threads/Alone has the steps of
--                     one thread by itself, which come to what the calls of the other files do
--   UploadPlugin      upload_plugin.cxx
--   Examples          runs at concrete inputs
--
-- A record of the model has the members of its struct under their names, and a function has the name
-- of the method or, where a method is cut in parts, the name of what the part does. A call takes the
-- state and gives back a `Result`: a value with the new state, `fault` for undefined behaviour (an
-- index or a copy out of range, an indeterminate or null pointer followed, overflow of `int`, division
-- by zero), or `hang` for a loop whose fuel ran out. Only the loop of `trim` takes fuel, one for each
-- round. Where the buffers that it may evict suffice to get below the limit, some fuel is enough if
-- the clock passes any time in the end, and one larger than their number if every buffer in use was
-- touched before any later reading. A pointer `&pieces[i]` is the index i. Members of type `int` that
-- may be negative are signed integers, and the conversions between `size_t` and `int` in the copying
-- loops are written out; the counters `buffer_used`, `buffer_limit` and `buffer_size` are integers
-- without wrap-around, so that their overflow is not a fault here; Machine/Counters is about their
-- range. Pieces, offsets and sizes of requests are natural numbers: a negative one is not modelled,
-- and neither is an overflow of `file_offset`, which needs a request that starts behind the end of the
-- piece.
--
-- Outside the repository, and so parameters: the clock and the piece priorities of the torrent handle
-- (`Env`; the priorities may be others at each reading of the clock, and so at each search), what the
-- constructor reads of `torrent_info` (`TorrentInfo`), the text of an `int` (`lexical_cast`), and the
-- torrent, its connections and their handles (UploadPlugin). The calls that the storage makes on the
-- torrent are kept in a log, in their order. The global `memory_size` is an argument of the
-- constructor.
--
-- A storage is valid (`IsValid`) when it is initialised, its pointers are set, its vectors have the
-- sizes that its counters tell, the number of buffers is the one for its capacity, each piece and
-- buffer has its own index, and `bi` and `pi` link pieces and buffers one to one.
--
-- In Storage/Threads a step is what a thread does between two points where another may go on: the
-- tests without the lock, the section of `get_buffer` under `m_mutex`, the test of the size in `read`,
-- the copy, each search and each removal of `trim`, and the section of `set_memory_size`. A search and
-- the updates are sections of `r_mutex`, and a step each. Only one thread calls `set_memory_size`;
-- Setup/Race has what two do. Everywhere else the calls run one after the other.
--
-- Not modelled: a copy, or another step, that is cut in two by another thread. The copies of `writev`,
-- `readv` and `read` hold no lock in the source, so that a buffer that is given to another piece, or a
-- vector of buffers that `set_memory_size` moves, in the middle of a copy is not among the runs here;
-- and a copy that would fault has no step, so that its thread stays where it is. Not modelled either:
-- the lines printed to the log (with logging on, `readv` and `writev` read `bufs[0].iov_len` for them,
-- also where there are no vectors), the member `id` and the pointers `m_files` and `m_info`, which no
-- operation reads later. session_handle.hpp is a copy of a header of libtorrent; the SWIG interfaces
-- under interfaces/, the Go wrappers, the build files and docker/ are glue around the program.
-- `writev` calls `bufs_size` of libtorrent in any case, but its answer is used for the log only, so
-- that the call is left out.
pub mod Base
pub mod Slots
pub mod Piece
pub mod Buffer
pub mod Storage
pub mod UploadPlugin
pub mod Examples
