-- ===== src/Lib.antt =====
-- Verification of the concurrent memory pool and of the muduo server library.
--
-- ConcurrentMemoryPool is a malloc in three layers. A thread cache (ThreadCache.cc) keeps 208 free
-- lists, one for each block size; it fetches batches of blocks from the central cache
-- (CentralCache.cpp) and gives surplus ones back; the central cache cuts spans of pages into blocks
-- and gets the spans from the page cache (PageCache.cpp), which splits and merges them.
--
-- muduo is a server library of reactors: a connection reads into a Buffer and writes from one, an
-- event loop has a TimerWheel that closes idle connections, and the HTTP server reads requests
-- from the buffer and finds the file or the route they name.
--
-- Base holds what the modules share: tests and lists over the native numbers, and 64-bit words.
-- MemoryPool.SizeClass is the class SizeClass of ConcurrentMemoryPool/Common.h: `round_up` is
--   RoundUp, `index` is Index, `num_move_size` and `num_move_page` are NumMoveSize and NumMovePage.
--   Numbers wrap at 2 ^ 64 and a failed assertion is `none`.
-- MemoryPool.Memory is the store of next pointers (NextObj), with list segments.
-- MemoryPool.FreeList is the class FreeList of ConcurrentMemoryPool/Common.h.
-- MemoryPool.PageMap is the radix tree of ConcurrentMemoryPool/PageMap.h.
-- MemoryPool.Carve holds the two loops of CentralCache::FetchRangeObj. The carving loop takes fuel;
--   as many rounds as the span has bytes are enough, since each round moves on by at least one.
-- MemoryPool.PageCache is PageCache::NewSpan and PageToSpan of ConcurrentMemoryPool/PageCache.cpp,
--   with Span and SpanList of Common.h; its Release is ReleaseSpanToPageCache. NewSpan calls itself:
--   two calls are enough. The loops that merge take fuel: 129 rounds are enough, since a span has at
--   most 128 pages and gains one in every round. Page numbers lie far below 2 ^ 64.
-- MemoryPool.CentralCache is the class of this name, on the page cache and the memory, called by one
--   thread at a time; Accounts says which blocks of a span are free and which are out. The loop over
--   the blocks that come back takes fuel; one round more than there are blocks is enough.
-- MemoryPool.ThreadCache is the class of this name with ConcurrentMalloc and ConcurrentDelete, for one
--   thread; a block is lent if it is out of its span and in no list of the thread.
--   Program is the two calls as the program makes them, and Runs any number of them: a run is a
--   sequence of calls for at most 256 KB each, in which only blocks that the program has come back,
--   and of stores of aligned words into those blocks (Stores). The carving loop lets the last block
--   of a span end beyond its pages, where it may overlap the next span: a run makes no store there.
-- Muduo.Buffer is the class Buffer of muduo/server.hpp. Its offsets wrap at 2 ^ 64.
-- Muduo.TimerWheel is TimerTask and TimerWheel of muduo/server.hpp. A shared pointer is the number
--   of a task in a slot; a task is destroyed with its last pointer. Release is about one slot,
--   Schedule and Record about when a timer runs, and Reuse about ids that are used again.
-- Muduo.Poll is the classes Channel and Poll of muduo/server.hpp, with epoll as the interface `Epoll`;
--   Muduo.Connection is the class Connection, with its callbacks as parameters, of which Laws says when one is in order, Handlers and
--   Events.Order that it stays so, and Failures which calls end the process. Muduo.EventLoop is the
--   queue of tasks of EventLoop, as steps that interleave; Muduo.LoopThreadPool and Muduo.TcpServer
--   are the classes of these names.
-- Muduo.Http.UrlCode is UrlEncode and UrlDecode of muduo/http/httpserver.hpp, and Muduo.Http.Paths
--   its Split, IsValidPath, BuildFilePath and MatchRoute. The loop of Split takes fuel; one more
--   round than the text has bytes is enough, since each round but the last takes off a byte.
-- Muduo.Http.Message is HttpRequest, Muduo.Http.Parse the parsing functions of HttpContext, and
--   Muduo.Http.Context its state machine. The functions Recv... are `receive_...`. The loop over
--   the header lines takes as fuel one more than the bytes in the buffer, and each round takes a
--   byte off it; the loop over the query likewise.
-- Muduo.Http.Tables holds the status texts and the mime types, Muduo.Http.Response HttpResponse and
--   HttpServer::MakeResponse, and Muduo.Http.Server Route, Dispatcher and FileHandler of HttpServer.
--   The file system is a parameter, as are the callbacks of the routes. Muduo.Http.Session is
--   OnConnect, OnMessage and ErrorHandler on one connection. The loop of OnMessage takes as fuel two
--   more than the bytes in the buffer, since every request after the first takes at least a byte. It
--   runs in the thread of the loop, where ShutDown calls OnMessage again while bytes are left: that
--   call is a round like those of the loop. The depth of the stack is not modelled.
--
-- Not modelled: system calls, locks and their interleavings, benchmarks, and the parts of the
-- repository that only demonstrate a system call or a feature of C++.
pub mod Base
pub mod MemoryPool
pub mod Muduo
