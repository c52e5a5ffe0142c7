-- ===== src/Lib.antt =====
-- Rapira for Windows: a model of the server's own logic, and the theorems that hold of it.
--
-- The server takes HTTP requests and gRPC calls on its own threads and runs PHP on a pool of interpreter
-- threads. A request passes the checks of crates/plugins/http, may be answered by the static files of
-- crates/middleware/static_files, and else becomes a unit of work: its body is reserved in the intake of
-- crates/sapi/src/work.rs, it waits for a slot, and an interpreter thread of crates/sapi/src/start.rs pulls
-- it. The thread reports what it does to its slot of the scoreboard in crates/scoreboard, and stops when
-- its quota is reached. A gRPC call passes the interceptor of crates/interceptors/auth first.
--
-- Files and code:
-- Common and its children: native numbers, lists, association lists and bytes, with the parts of the
--   Rust standard library that the code uses (`trim`, `split`, `eq_ignore_ascii_case`, `starts_with`).
-- StaticFiles: crates/middleware/static_files/src/cache.rs. Cache is `CachedMeta`, `Entry` and `Store` with
--   one function for each method; Backend is `CachingBackend`, whose `stat`, `fill` and `open` take what the
--   file system answers, the clock, and what other threads do to the store between two locks. Paths is
--   `StaticFiles::new` and `eligible` of crates/middleware/static_files/src/lib.rs.
-- Pool: Scoreboard is crates/scoreboard/src/lib.rs; Events is crates/sapi/src/scoreboard.rs and quota.rs
--   with the thread-local variables as a record; Semaphore is tokio's semaphore as an interface; Intake is
--   crates/sapi/src/work.rs (`reserve_body`, `grow_body`, `submit`, `close`) with the dequeue of `recv`;
--   Intake/System is the interleaving of the tasks and threads around it.
-- Auth: crates/interceptors/auth/src/lib.rs (`parse`, `bearer_token`, `same`, `accepts`, `intercept_head`).
-- Http: Check is crates/plugins/http/src/check.rs; Response is response.rs; Multipart is multipart.rs, with
--   Delimiter for `next_delimiter`, Disposition for `disposition_params`, Part for `parse_part`, Parse for
--   `parse` and Boundary for `boundary`. HeaderMap and Memchr are the http and memchr crates as interfaces,
--   which FieldList and Multipart/Tests meet with functions.
--   Reply is the frames of crates/sapi/src/types.rs and the sender of their channel as an interface, which
--   Reply/Buffer meets; Reply/Protocol is what a receiver of the frames may rely on.
--   Exchange is crates/plugins/http/src/php: its state, `send_frame`, `emit_head`, `seal` and `discard_unit`;
--   Head is headers.rs, Files and Release are sendfile.rs and the drop of an exchange, and Calls is the calls
--   of PHP in respond.rs. Reach is any sequence of them, and History the bytes that they write.
--   Bridge is crates/plugins/http/src/bridge.rs: `ReplyBody` and its `poll_frame`; Whole is any run of polls,
--   and Sources puts it behind an exchange. Timed is its `TimedIo`; Delivery is the mark of a delivered response
--   in handler.rs, and the drain behind it.
--   Handler is crates/plugins/http/src/handler.rs: the body of a request, the answer of a reply's head, and
--   `framed_length`; Handler/Bodies is `parse_multipart`.
-- Worker: Pull is `recv`, `pull_unit_wait`, `pull_unit_to_shed` and `effective_quota` of
--   crates/sapi/src/start.rs; Cycles is `rapira_worker` of crates/sapi/src/rapira_worker.rs; Main is
--   `worker_main` of start.rs. What PHP does in a cycle, the channels and the clock are arguments.
-- Observability: crates/observability/src/stats.rs (`board_stats`) and probes.rs (`unready`).
--
-- Numbers are unbounded, and a counter of 64 or 32 bits has its wrap-around or its saturation written out.
-- Subtraction stops at 0, as `saturating_sub` does; a plain difference of the source is one of numbers that
-- its invariants keep in order. Each loop over a text takes fuel and answers an option:
-- the length of the text is given, as a round takes at least one byte. The loops of the worker run over the list
-- of the cycles or rounds that there are. Memory orderings are left out: an atomic that the model changes
-- has one writer at a time, or is changed by one atomic operation.
--
-- Not modelled: what calls into PHP, the file system, sockets, hyper, tower and connectrpc; the PHP objects
-- that an exchange hands out; the gRPC plugin behind its interceptor; the configuration; the text and the
-- server of the metrics; a connection whose task is dropped without a close; paths that differ in their text
-- but not in their components.
mod Common
pub mod StaticFiles
pub mod Pool
pub mod Auth
pub mod Http
pub mod Worker
pub mod Observability
