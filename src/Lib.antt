-- ===== src/Lib.antt =====
-- Fastcgi Container: a server that reads FastCGI requests, hands each to handlers of loaded
-- components in a pool of threads, and writes their response. This library models the parts of it
-- below and proves theorems about them. Paths are from the repository's root.
--
-- The parts and their files:
--
--   Base: names of the libraries that all files use, tests on the native numbers, lists, and byte
--     strings. A byte is a number, a `std::string` the list of its bytes, and a 64-bit number a
--     natural number whose wrap-around is written out; eight bytes hold a number with the lowest
--     byte first, as on x86.
--   Range: `Range` of include/fastcgi3/range.h as the bytes between its pointers; Range/Cut and
--     Range/Pieces describe `split` at a character, Range/Trim `trim`.
--   Url: `StringUtils::urlencode`, `urldecode` and `parse` of library/util.cpp; Url/RoundTrip and
--     Url/Query hold their proofs. `parse` splits a range with Range and decodes the pieces.
--   Base64: `HashUtils::base64_encode` and `base64_decode` of library/util.cpp with the 32 bits
--     of their accumulator; Base64/RoundTrip and Base64/Length hold their proofs.
--   DataBuffer: `DataBuffer` of library/data_buffer.cpp over the storage of
--     library/string_buffer.cpp, a window on bytes; DataBuffer/Holds says how reading and writing
--     divide a window, and `to_string` reads one out or says that there is none. DataBuffer/Search has its search, trimming, cutting and comparison;
--     DataBuffer/Shows, DataBuffer/Cuts and DataBuffer/Affixes compare these with the operations
--     of Range on the bytes of the window, by Range/Search.
--   Map: `std::map` with string keys as the ordered list of its entries, with the order of
--     include/fastcgi3/functors.h for headers; the look-ups are those of
--     include/details/parser.h. Map/Order, Map/Found and Map/Kept are about insertion and
--     look-up.
--   Cookie: library/cookie.cpp, and the set of cookies of a response.
--   Request: `Request::serialize` and `Request::restore` of library/request.cpp with their
--     helpers (Request/State, Request/Serialize, Request/Restore). The request cache stores a
--     request with the first and the server continues it with the second. Request/Writes and
--     Request/Stored describe what is written, Request/Reads, Request/Windows, Request/Entries
--     and Request/ReadBack how it is read, and Request/RoundTrip joins the two. Request/Lookups
--     and Request/Numbers are the accessors, Request/LookedUp relates them. Request/Attach is
--     `attach`, which fills a request by Parser, Url and Parser/Multipart; Request/Attach/Forms
--     compares the parameters of a buffer and of a range, Request/Attach/Intake is about the end
--     of it all.
--   Parser: how library/parser.cpp makes headers, cookies and variables of the FastCGI
--     environment, with the status texts (Parser/Status) and the names of the headers sent
--     (Parser/OutputNames). Parser/Names is about the names of headers, Parser/Ends about the
--     loops. Parser/Multipart reads the boundary and a multipart body over DataBuffer/Search;
--     Parser/Multipart/Within, Parser/Multipart/Settled, Parser/Multipart/Parts and
--     Parser/Multipart/Bodies are about its loops.
--   Response: the other half of `Request` in library/request.cpp: status, headers, cookies and
--     body on their way to the client. Response/Run is any sequence of a handler's calls;
--     Response/Framed, Response/Late and Response/Headers say what reaches the client.
--   Filters, Handlers: library/request_filter.cpp and library/handlerset.cpp, the choice of
--     handlers and filters for a request; Handlers/Found describes what is found.
--   Security: principals and subjects of library/security_principal.cpp and
--     library/security_subject.cpp, and the filter of library/security_authenticator.cpp
--     (Security/Authenticator); Security/Principals and Security/Guard hold their proofs.
--   RequestPool: `RequestsThreadPool::handleTask` of library/request_thread_pool.cpp, which runs
--     the filters around the handlers and answers their exceptions through Response, or restores
--     a request through Request/Restore for the dispatcher. RequestPool/Chain is about the
--     filters, RequestPool/Answered about the answers, and RequestPool/Dispatched about a
--     dispatch with a stored request. What `Server` of library/server.cpp assigns to
--     `futureHandlers` is one of the functions that a task may hold.
--   ThreadPool: `ThreadPool` of include/details/thread_pool.h, which runs such tasks; a step is
--     what the owner or a thread does while it holds the mutex, or the end of a task.
--     ThreadPool/Counts, ThreadPool/Tallied and ThreadPool/Invariant relate its counters and its
--     queue to what happened.
--   Text, FilePath: the functions on strings and paths of page-compiler/utils.cpp; FilePath/Parts
--     is about paths, Text/Pieces about `split`.
--   Page: the page compiler's `Page` (page-compiler/page.h), with `PageReader` of
--     page-compiler/page_reader.cpp in Page/Token (nextToken), Page/Reader (parseAttributes,
--     handleAttribute, where) and Page/Parse (parse, include), and `CodeWriter` of
--     page-compiler/code_writer.cpp in Page/Writer and Page/Files. Page/Rounds has rules for the
--     loop of `parse`; Page/Sections describes pages and their code, which Page/Compiled proves
--     of `parse`; Page/Printed reads the code of a text back, as it is before
--     the writer deletes empty prints from it.
--   Compiler: the run of page-compiler/main.cpp over all pages, which reads each with Page/Parse
--     and writes it with Page/Files; Compiler/Names and Compiler/Sources are
--     about the files.
--   Tests: runs on small data, and the theorems at concrete arguments; Tests/Serving has those of
--     Response, Handlers, Security and RequestPool, Tests/Encoding those of Base64 and Text,
--     Tests/Uploads and Tests/Intake those of buffers, multipart bodies and Request/Attach,
--     Tests/Dispatching that of a dispatch, Tests/Pages those of the page compiler.
--
-- Fuel: the loop of `parse` on a query gets one round more than the range has bytes, and each
-- round takes at least one byte. The loops on ranges in Parser get as many, and those of a
-- multipart body one round more than their buffer has bytes. The loops of `restore` get one round
-- more than the buffer has bytes, and a round that reads a stored entry advances by at least 16.
-- The inner loop of `base64_encode` gets as many rounds as there are bits, and each takes six.
-- The loop of the page reader gets one round more than the page has bytes, as do those on the
-- attributes of a directive and on the pieces of a text. Pages may include one another as deep as
-- the argument `depth` says; past it the result is `endless`.
--
-- Parameters: `std::string::max_size()` is the argument `max_string` of `restore`;
-- HttpDateUtils::format, which calls the C library, is `format_date`; std::regex_match is
-- `regex_match`, the std::regex_replace of the page compiler is `remove_empty`, and std::hash is
-- `hash`. The files that the page compiler reads are `files`, and what the stream of a request
-- gives is `read`; `max_size` is std::vector<char>::max_size(), past which `resize` throws. Handlers, filters, the dispatcher and the methods of an authenticator's
-- subclass are arguments. The locale is "C". An allocation does not fail, and the stream to the
-- client takes every byte.
--
-- Not modelled: the request cache in `attach`, buffers over mapped files, sessions but for their
-- subject, the components for logging in, the request cache's files, the command line of the page
-- compiler, configuration, loading of components, loggers, statistics and sockets. The
-- notifications of the pool's condition variable are not modelled; a thread that waits may go on
-- at any time.
pub mod Base
pub mod Text
pub mod Range
pub mod Url
pub mod Base64
pub mod FilePath
pub mod DataBuffer
pub mod Map
pub mod Cookie
pub mod Request
pub mod Parser
pub mod Response
pub mod Filters
pub mod Handlers
pub mod Security
pub mod RequestPool
pub mod ThreadPool
pub mod Page
pub mod Compiler
pub mod Tests
