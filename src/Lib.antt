-- ===== src/Lib.antt =====
-- net-cpp: a C++ library of coroutines, HTTP and DNS.
--
-- The program has three layers. `include/xsl/net` and `src/net` parse and print the protocols on
-- texts and bytes; `include/xsl/coro` and `include/xsl/sync` have the signals and queues by which
-- coroutines and threads wait for each other; `include/xsl/asio` ties both to sockets: its reader
-- hands the bytes of a connection to the parser of a head, and its server hands the path of a
-- request to the router. The development models the core of each layer:
--
--   Errc                 include/xsl/error.h: the error codes that the modelled code returns
--   Http.Proto           include/xsl/net/http/proto.h: versions, methods, status codes
--   Http.Media           include/xsl/net/http/proto/media-type.h and src/net/http/proto/media-type.cpp
--   Net.Uri              src/net/uri.cpp: `percent_decode`
--   Http.Accept          src/net/http/proto/accept.cpp: `parse_accept_encoding`
--   Http.Message         include/xsl/net/http/msg.h: `MessageRestView::parse`
--   Http.Reader          include/xsl/asio/http/common.h: the window of `Message::read`
--   Http.Router          include/xsl/net/http/router.h: `HttpRouteNode`
--   Http.Line            how a first line is cut at its blanks
--   Http.Request         include/xsl/net/http/request/line.h and target.h: `RequestLine::parse`
--   Asio.Io              include/xsl/asio/io.h: `send`, `sendv`, `send_file`, `sendto`
--   Asio.Io.Receive      include/xsl/asio/io.h: `imm_recv`, `recv`, `recvfrom`
--   Asio.Buf             include/xsl/io/buf.h: `Buffer::write`
--   Asio.Http.Response   include/xsl/asio/http/response.h and src/asio/http/response.cpp: the status
--                        line, the map of headers, `ResponsePart`, `ResponseBuilder`
--   Asio.Http.RequestPart  include/xsl/asio/http/request.h and src/asio/http/request.cpp:
--                        `RequestPartBuilder`
--   Asio.Http.Context    include/xsl/asio/http/context.h: `HandleContext`
--   Asio.Http.Service    include/xsl/asio/http/service.h: `HttpService`, `ServiceBuilder`
--   Asio.Http.Conn       include/xsl/asio/http/conn.h: `imm_serve_connection`
--   Asio.Http.Static     include/xsl/asio/http/component: static files and redirects
--   Dns.Proto            include/xsl/net/dns/proto/def.h: codes and their texts
--   Dns.Wire             include/xsl/ser.h: 16-bit words as bytes
--   Dns.Header           include/xsl/net/dns/proto/header.h: `Flags`, `Header`, `HeaderView`
--   Dns.Name             src/net/dns/utils.cpp, include/xsl/net/dns/utils.h and
--                        include/xsl/net/dns/proto/question.h: `DnDecompressor`, `skip_dn`,
--                        `skip_question`
--   Coro.Signal          include/xsl/coro/signal/core.h: `UnsafeSignal` and `MPSCSignal`, the second
--                        also under threads (Coro.Signal.Threads)
--   Coro.Channel         include/xsl/coro/channel/spsc.h: `SPSCChannelStorage` and its operations
--   Coro.PubSub          include/xsl/coro/pub_sub.h: `publish`, `stop`, and `epoll_handle` of
--                        include/xsl/asio/io.h
--   Coro.Executor        src/coro/core/executor.cpp: `ThreadPoolExecutor`
--   Sync.Spsc            include/xsl/sync/spsc.h: `Storage`, `TxTraits::push`, `RxTraits::pop`
--   Wheel.Rc             include/xsl/wheel/rc.h: `Rc`
--
-- A parser is a function on lists of character codes; what points into a buffer in the program is
-- the text there. State is passed on explicitly: an operation gives its result and the new state.
-- A read outside a table or a buffer is `none` or an outcome of its own. Maps are association
-- lists. The order of elements in an unordered map is not modelled, since the modelled code never
-- walks one.
--
-- Loops run on fuel. The fuel of `parse` and of `skip_dn` is one more than the length of the
-- text, since a round skips at least a byte, and so is that of `percent_decode` and of
-- `parse_accept_encoding`; that of `read_rest` is an argument, and one more than the number of
-- bytes that the peer sends suffices; that of `RequestPartBuilder::append` is an argument, since its
-- loop either does not run or does not end; that of `decompress` is an argument, since the program does
-- not end on every message.
--
-- Under threads every access of `MPSCSignal` to its atomic word is a step, and the steps come in
-- any order: all these accesses are to one atomic object, so they have one order. The fields with
-- the continuation are not part of the state; who may call it is. The queue has one producer and
-- one consumer; a pop is cut where it publishes its head, and a push is one step.
--
-- The system is a list of what its calls meet, one entry for each call: how many bytes it has room
-- for or what arrives, EAGAIN with the answer of the wait that follows, or an error. When the list
-- is over the call still waits, and the result is `none`. The file system is a record of functions.
-- A handler of the service is a function on its context, and a body that writes itself is one on the
-- turns of the device.
--
-- In the thread pool a step is what a thread does under the mutex; a worker can leave its wait just
-- when the predicate of the wait holds.
--
-- Not modelled: sockets, epoll, TLS and the other system calls apart from reads and writes,
-- logging, the coroutine machinery of the compiler, the compile-time parts (features, type
-- traits), the matching of regular expressions, `parse_accept`, the compressor of names and the
-- resource records, the races between the two ends of a channel, what other threads and resumed
-- coroutines do in the middle of a `publish` or a `stop` of several signals, the destruction of
-- the thread pool, the lifetime of views, and the accepting of connections.
pub mod Asio
pub mod Prelude
pub mod Errc
pub mod Http
pub mod Dns
pub mod Sync
pub mod Net
pub mod Wheel
pub mod Coro
