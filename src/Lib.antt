-- ===== src/Lib.antt =====
-- Verification of loggi, a log viewer: the engine that stores rows and the language that filters them.
--
-- A source gives the server lines of a log. internal/store keeps the latest rows in a ring of
-- sequence ids: texts go through an interner (internal/store/intern.go) or, if they are large, a slab
-- of payloads (internal/store/blob.go), and columns keep bitmaps of the rows that have a value.
-- Subscribers get the rows that are published. A client asks with a filter. internal/filter reads it: the
-- tokenizer and the parser (parser.go) give a syntax tree (ast.go); the compiler (compile.go) makes of it a test of rows, which is run on each
-- live row; the planner (plan.go) makes of it a bitmap of candidates and a residual test, with which
-- the store answers queries for the backlog (QueryRangeBitmap of store.go). internal/server strips a
-- line of its escape sequences, publishes it, and answers clients with pages of matching rows; it keeps the
-- table of sources, with those that a profile adds, and samples the first JSON rows of a source for the
-- columns that it recommends (internal/coldetect).
--
-- The files:
--   Prelude, Prelude/*    the names that all modules share; lists, maps and options of native numbers
--   Text/Search           Go's strings as lists of bytes, and the functions of package strings in use
--   Store/Bitmap          roaring bitmaps as an interface with laws (a package outside the repository)
--   Store/Types           ColumnKind and MaterializedRow of internal/store
--   Store/Arena, Intern   internal/store/intern.go: arena.appendStr is `append_str`, arena.read is
--                         `read`; Intern, Get, Retain, Release and Stats are `intern`, `get`, `retain`,
--                         `release` and `stats` on the record `Interner`, whose index is an association
--                         list and whose free list has its last entry first
--   Store/Blob            internal/store/blob.go: Put, Get, Retain, Release and Stats are `put`,
--                         `get_blob`, `retain_blob`, `release_blob` and `blob_stats`
--   Store/Column          internal/store/column.go: SetString, SetF64, EvictAt, GetString, GetF64,
--                         BitmapForValue and DistinctStrings are `set_string`, `set_f64`, `evict_at`,
--                         `get_string`, `get_f64`, `bitmap_for_value` and `distinct_strings` on the record
--                         `Column`; promoteToRawLocked is `promote_to_raw`
--   Store/Ring            the rows of internal/store/store.go: New and evictRowLocked are `new_ring` and
--                         `evict_row`; Ring/Ingest has Append (`append`) and what it calls, Ring/Read
--                         has HotString, HotF64, SourceIDOfSeq, Materialize and Publish (`publish_row`)
--   Store/Query           QueryRange, QueryRangeBitmap and AllLive of internal/store/store.go
--   Store/Subscribers     the subscribers of internal/store/store.go: Subscribe, Unsubscribe, Pause,
--                         Resume, SetFilter, TakeDropped, publish and deliver; Subscribers/Live has their
--                         steps among goroutines, Subscribers/Owed what a subscriber is owed
--   Filter/Ast            internal/filter/ast.go
--   Filter/Reader         what the filter uses of Go's library (`Library`) and of the store (`Reader`)
--   Filter/Token          the token kinds and the tests on bytes and tokens of internal/filter/parser.go
--   Filter/Tokenize       parser.tokenize: `next_token` is a round of its loop
--   Filter/Term           parseTerm, parseFieldRef, parseFieldValue and what they call
--   Filter/Parser         parseOr, parseAnd, parseNot, parseAtom and Parse
--   Filter/Glob, Scalar   matchGlob, and the comparisons of internal/filter/compile.go
--   Filter/Eval           evalCtx and the compiled nodes; Filter/Eval/Spec is what a filter says of a row
--   Filter/Plan           internal/filter/plan.go
--   Source/Levels         internal/source/levels.go: the canonical level of a row
--   Source/TextLine       internal/source/text_parse.go: the time and the level of a line of text
--   Source/Aliases        internal/source/aliases.go: AliasMap, Priorities, Resolve and Members are
--                         `alias_map`, `priorities`, `resolve` and `members`
--   Detect/Sampler        internal/coldetect/sampler.go: New, Observe and foldField are `new`, `observe`
--                         and `fold_field` on the record `Sampler`; Detect/Recommend has Recommend and p95
--   Detect/Detector       internal/server/coldetect.go: the detector of a source and the preferences
--   Server/Ansi           internal/server/ansi.go: stripANSI is `strip_ansi`
--   Server/Session        internal/server/session.go: queryBacklog is `query_backlog`, the rows of
--                         handleHistory are `history_page`, those of handleUpdateFilter `backfill`
--   Server/Session/Dispatch  the messages of a client about its subscriptions: handle is `handle`, on the
--                         session's map and the store's subscribers; cleanup is `cleanup`
--   Server/Pump           pumpSub of internal/server/session.go, a turn of its loop as a step; what
--                         sendEntries makes of the rows that it is given is not modelled
--   Server/Hub            the sources of internal/server/server.go: attach, addFileSource, RemoveSource
--                         and their like; Hub/Profiles has ActivateProfile, Hub/Health what a line and a
--                         tick do to a source (observeMode, processLine, tickStats); Hub/Run puts the
--                         calls of a server in sequence
--   Server/Idle           the idle timer of internal/server/server.go: armIdleLocked is `arm_idle`
--   Server/Histogram      the loop of internal/server/histogram.go is `count_rows`
--   Server/Lines          internal/server/server.go: isJSONObj and processLine
--   Wire/Frame            internal/frame/frame.go: Read and Write are `read_frame` and `write_frame`
--   Tests                 concrete libraries, and the theorems at concrete inputs
--
-- Conventions. Numbers are natural numbers; a uint32 is written `% 2 ^ 32` where the source converts
-- or counts. A method that locks its state for its whole body is one step. A panic (an index out of
-- range) is `none`; a nil pointer, function or bitmap is `none` as well. A store is seen by a filter
-- through `Reader`, the answers of its methods at one moment; a compiled node takes the store at
-- compile time and the store at the call. Append and the readers of rows lock the ring for their whole
-- body. A channel is the list of what is queued. A row that is published reaches a subscriber in one step.
-- Publish is two steps, Append and publish, under a lock that Resume does not take. `resume_sub` is the
-- whole of Resume; where other goroutines act within it (Store/Subscribers/Live), its reads before the
-- loop, each round of the loop and what follows the loop are steps.
-- The counters of rows and gaps in subscribers are not wrapped. The bits of `presence` are a list of
-- Booleans, one for each row of the ring. Go's maps are association lists; a loop over a map meets the
-- entries in the order of the list, which is any order, as a decoded JSON object is any list.
--
-- Fuel. The loop of the tokenizer runs on as much fuel as the text has bytes, for each round takes at
-- least one. The parser runs on 4 n + 4 for n tokens, since parseOr, parseAnd, parseNot and parseAtom
-- call each other at most once in turn before a token is taken. The loop of stripANSI runs on as much
-- fuel as the line has bytes, for each round takes at least one. The fields of a sampled row are read to
-- the depth of 4, which is the bound of foldField.
--
-- Parameters. Regular expressions of lines and the parsing of times are any functions (`Patterns`), and
-- so is the bucket of a time. xxhash is any function of texts; floats, regular expressions, lower case,
-- TrimSpace, JSON decoding, and the runes of a text and their classes are any functions (the records `Library`,
-- `Unicode`, for raw JSON values `Decoder` and for the scores of columns `Floats`); the laws of roaring
-- bitmaps are the fields of `Roaring`. The index of a column enters the planner's theorems as a hypothesis: at a row the bitmap
-- of a value agrees with the equality test.
--
-- Not modelled: Snapshot and the resolver of source names of internal/store/store.go, the arena's
-- capacity in Stats, the histogram's request, the messages that carry lines of stdin and
-- the rate of lines of a source, and the texts of errors in events. Calls of a server on its sources are
-- steps one after the other; what two calls do at the same time between their locks is not modelled. The
-- files and containers that lines come from, the client, the web interface and the commands are input and
-- output around these parts.
pub mod Prelude
pub mod Text
pub mod Store
pub mod Filter
pub mod Source
pub mod Detect
pub mod Server
pub mod Wire
pub mod Tests
