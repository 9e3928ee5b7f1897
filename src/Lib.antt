-- ===== src/Lib.antt =====
-- rustrest, a small HTTP framework: its routing core, its static files, its conditional requests and
-- negotiations, its sessions and its registry of WebSocket connections.
--
-- The router (src/app/router.rs) keeps a table of routes in order of registration. A lookup splits
-- the path, decodes its segments, asks the trie index (src/app/trie.rs) for candidates in order of
-- precedence, and answers the first whose host fits and whose pattern matches. The registry
-- (src/app/websocket/runtime.rs) admits connections under limits and keeps them, their rooms and
-- the counters under one lock. A WebSocket route that the router answers is admitted there. The
-- session store (src/app/session.rs) keeps the data of clients in shards, each with an index by the
-- time of expiry, and one counter that bounds the number of sessions. In front of the HTTP parser,
-- an inspector (src/app/http1.rs) classifies each request head and queues a verdict for the service.
-- A request for a static file goes through the check of its path, the preconditions and the range
-- before its body is streamed; the middleware for encodings negotiates what the body is sent in.
--
-- Parts:
-- - Text, Text.Utf8, Text.Split: Rust's `str` as its bytes, and what the program uses of the
--   standard library on it (`split`, `join`, `trim`, the UTF-8 check).
-- - Percent: `encode_path_segment`, `validate_percent_triplets`, `decode_path_segment` and
--   `decode_path_segments`. The crate percent_encoding is the parameter `percent_decode`; what its
--   documentation says is `Percent.RoundTrip.DecodesTriplets`.
-- - Pattern: `Segment` and `match_decoded_pattern`; Pattern.Parse: `RoutePattern` with `parse`,
--   `join` and `render_pattern`; Pattern.Render and Pattern.Accepts: their theorems.
-- - Hosts: `HostPattern`, `normalize_host`, `host_matches`, `hosts_overlap`.
-- - Trie: `RouteIndex` with `build`, `find_candidates` and `matching_methods`; Trie.Gather and
--   Trie.Methods relate their loops to recursive traversals, Trie.Counts, Trie.Table and
--   Trie.Sorted relate those to the table of routes.
-- - Router: `Route`, `Router`, `add_with_kind`, `mount` and the conflict checks; Router.Handle: the
--   operations of `RouteHandle`; Router.Lookup: `resolve_method`, `resolve_http_method`,
--   `allowed_methods`, `scoped_middlewares`; Router.Resolve, Router.Clear, Router.Symmetry,
--   Router.Others, Router.Runs, Router.Allowed, Router.Scoped, Router.Nearest and Router.Inherited:
--   their theorems.
-- - Router.Url: `url_for` and `build_url`; Ranges: `parse_byte_range`, the `Range` header of static
--   files.
-- - Static: `safe_static_relative`, with `Path::components` of the standard library on Unix;
--   Static.Stream: the body of a static file, `file_stream` and `spawn_static_file_producer`.
--   Static.Contained, Static.Accepts and Static.Delivery: their theorems.
-- - Registry and Registry.Rooms: the operations on `Registry`, each one critical section;
--   Registry.Metrics: its counters, snapshots and shutdown; Registry.Broadcast:
--   `select_broadcast_recipients`. Registry.Counts, Registry.Counted, Registry.Reach,
--   Registry.Sorting, Registry.Admission,
--   Registry.Seen, Registry.Index, Registry.Indexed, Registry.Runs and Registry.Recipients: their
--   theorems.
-- - Sessions: `SessionEntry` and `SessionShard` with `insert_entry`, `remove_entry`, `renew` and
--   `remove_expired_entries`; Sessions.Data: `validate_session_value` and the limits of `set`;
--   Sessions.Store: `SessionStore` with `resume`, `create` and the cleaning; Sessions.Values: `get`,
--   `set`, `remove`, `clear`, `rotate`, `live_len` and `Sessions::regenerate`. Sessions.Shards,
--   Sessions.Expiry, Sessions.Consistent, Sessions.Sweeps, Sessions.Requests, Sessions.Runs,
--   Sessions.Live, Sessions.Kept, Sessions.Full, Sessions.Reads, Sessions.Moves, Sessions.Accepts and Sessions.Limits:
--   their theorems.
-- - Http1: `inspect_head`, `parse_content_length` and `Http1Verdicts` (src/app/http1.rs);
--   Http1.Stream: `Http1InspectedIo` with `observe`. The parser of the crate httparse is the
--   parameter `parse`; Http1.Stream.Rounds.Consumes is what is asked of it. Http1.Framing,
--   Http1.Stream.Rounds, Http1.Stream.Orderly and Http1.Stream.Service: their theorems.
-- - Query: `decode_component`, `parse_query` and `parse_cookies` (src/app/request.rs);
--   `String::from_utf8_lossy` is the parameter `lossy`. Query.Decoding and Query.RoundTrip: their
--   theorem.
-- - RateLimit: `check_rate_limit_state` with what it calls, and `retry_after_seconds`
--   (src/app/middleware/mod.rs); RateLimit.Windows: their theorems.
-- - Compression: `negotiate_encoding` with what it calls (src/app/middleware/compression.rs);
--   Compression.Best: its theorem.
-- - Conditional: `ConditionalHeaders` with `from_request` and `evaluate_with_response_validators`,
--   `entity_tag_list`, `parse_entity_tag` and `if_range_matches` (src/app/middleware/conditional.rs). The
--   dates of the crate httpdate are the parameter `parse_date`. Conditional.Tags, Conditional.Fields and
--   Conditional.Answers: their theorems.
-- - Cookies: `Cookie` with its builder and `to_header_value` (src/app/cookie.rs); Cookies.Plain and
--   Cookies.Header: their theorem.
-- - Tests: runs at concrete inputs.
--
-- Fuel: the two work-list loops of the trie run on fuel computed from the number of nodes; every
-- node is popped at most twice in the first and once in the second, and the equations with the
-- recursive traversals hold for every index, so the fuel never ends the loop. The loop of `observe`
-- runs on fuel computed from the bytes before it; each round but the last takes a byte at least.
-- The producer of a static file runs on the length of the body; each turn that goes on sends a byte.
--
-- Machine integers: counters of 64 bits wrap (`add_u64`) or saturate as in the source; lengths and
-- indices that count elements in memory are natural numbers. Identifiers of connections are
-- assumed not to wrap where the theorems on the registry say so.
--
-- Not modelled: handlers, middlewares and configurations (parameters of the table), error
-- messages, the server, TLS, bodies, responses, OpenAPI and the asynchronous WebSocket
-- driver, which are input and output over tokio, hyper and tungstenite, or glue over closures. The
-- operations on sessions and on the registry run one at a time; the hash of the standard library
-- and the clock are parameters. The signed cookies of the sessions are left out.
pub mod Prelude
pub mod Text
pub mod Pattern
pub mod Trie
pub mod Percent
pub mod Hosts
pub mod Router
pub mod Ranges
pub mod Query
pub mod RateLimit
pub mod Static
pub mod Registry
pub mod Cookies
pub mod Compression
pub mod Conditional
pub mod Http1
pub mod Sessions
pub mod Tests
