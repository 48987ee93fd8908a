-- ===== src/Storage/Threads/Cache.antt =====
-- The threads of memory_storage.hpp refine a lossy cache that many use at once.
use libtorrent_go.Storage.{Storage}
