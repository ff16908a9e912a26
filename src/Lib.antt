-- ===== src/Lib.antt =====
-- Boa, a single-tasking HTTP server in C: a model of its request path.
--
-- The server keeps one record for each connection and runs one loop over them. A request is read
-- and checked, its path is decoded and mapped to a file, its ranges are parsed, and the answer is
-- written through a buffer or through mapped files; a request that would block waits in a second
-- list. The parts that are modelled, with the files of the repository they stand for:
--
-- - Common: Boolean tests, lists and C strings, over the native numbers. A byte is its code, a C
--   string is the list of its bytes before the NUL.
-- - Status: the enumerations of a request, src/globals.h, and what a handler returns.
-- - Header: the loop of `read_header` of src/read.c, which cuts the stream into lines. The handlers
--   of a line and of the end of the header are arguments.
-- - Logline: `process_logline` of src/request.c, the first line of a request.
-- - Options: `process_option_line` of src/request.c, the other lines, with `add_cgi_env` of
--   src/cgi.c; Options.Session: the scanner with both line functions as its handlers.
-- - Request: `process_header_end` of src/request.c up to its call of translate_uri. It uses Uri
--   (`unescape_uri`), PathClean (`clean_pathname`) and Host (`check_host`, `strlower`), all of
--   src/util.c, as the code calls them.
-- - Range: the pool of range nodes, `range_add` and `ranges_fixup` of src/range.c; Range.Parse: the
--   table-driven scanner `range_parse`. The links of the nodes are the order of lists.
-- - Decimal: `simple_itoa` and `boa_atoi` of src/util.c.
-- - Escape: the bit table of src/escape.c and `escape_string` of src/buffer.c.
-- - HttpDate: the date functions of src/util.c: `rfc822_time_buf`, `get_commonlog_time`,
--   `month2int`, and `date_to_tm` and `modified_since` behind the sscanf call.
-- - Buffer: the output buffer of a request, src/buffer.c. The content is the bytes before
--   buffer_end, so buffer_end is its length.
-- - Response: the headers, the replies and `complete_response` of src/response.c, written through
--   Buffer; Response.KeepAlive: the test of `free_request` of src/request.c.
-- - Alias: the alias table and `translate_uri` of src/alias.c; Alias.Script: `init_script_alias`,
--   which translate_uri ends with for the alias of a script.
-- - Cgi: the environment and the arguments of a CGI program, src/cgi.c; Cgi.Start: `init_cgi`, and
--   what the child executes.
-- - CgiHeader: `process_cgi_header` of src/cgi_header.c, with its replies.
-- - Listing: the program src/index_dir.c, which prints a directory as a page; Listing.Html: its
--   escaping.
-- - Loop: `new_request`, `get_request`, `sanitize_request`, `free_request` and `process_requests` of
--   src/request.c, over the lists of Queue and the buffer of Buffer, with the reply of Response
--   to a connection too many. The handlers of the statuses
--   are an argument. Loop.Select: `fdset_update` of src/select.c.
-- - Pipe: `read_from_pipe` and `write_from_pipe` of src/pipe.c, and the rounds of `process_requests`
--   for them. process_cgi_header is an argument.
-- - FileSend: `io_shuffle` and `io_shuffle_sendfile` of src/pipe.c and `process_get` of src/get.c,
--   which end with complete_response.
-- - Get: `init_get` and `get_dir` of src/get.c, for the build with GUNZIP and ACCESS_CONTROL: which
--   file is opened, the replies of all its ends, the mapping, and the bytes that are copied behind
--   the header. They use Range, Response and FileSend; access_allow, modified_since and find_mmap
--   are arguments.
-- - MmapCache: the reference-counted table of mapped files, src/mmap_cache.c. An entry is its index.
-- - Hash: the hash tables of src/hash.c for MIME types and home directories.
-- - Access: the rule list of src/access.c.
-- - Queue: the doubly linked ready and blocked lists of src/queue.c over a store of links, and the
--   descriptor sets of the select build.
-- - Body: the relay of a POST body, from the end of `read_header` through `read_body` and
--   `write_body` of src/read.c.
-- - Examples: the theorems at concrete inputs.
--
-- State is passed explicitly. A function that can fail gives an Option, where `none` is the -1 or
-- the null pointer of the source, or a data type with one constructor for each way it ends. Pointers
-- into a table are indices, and request pointers are numbers with a store of their links. What the
-- C library and the kernel return (read, write, mmap, getpwnam, fnmatch) is an argument; a type in
-- front of the theorem that needs it says what is relied on.
--
-- Bounds and fuel. The machine is LP64: an unsigned long has 64 bits, an int 32, and a char is
-- signed; the wrap-around is written out. The loop of `clean_pathname` has one unit of fuel more
-- than the path has bytes, and reads a byte in each round. `simple_itoa` has 20 rounds, for the
-- digits of a 64-bit number; the loop that writes a year has 10, for those of an int. The probe of
-- the mmap table has 256 rounds, one for each slot, and comes back to its start by then. The
-- MAX_PATH_LENGTH is PATH_MAX, 4096. The
-- walk of `fdset_update` has one unit for each blocked request, and `process_requests` one set of
-- answers for each round. All other loops run over their input.
--
-- Not modelled: signal handling and the start of the server (src/signals.c, src/boa.c), the loop of
-- src/select.c around its calls, the poll build (src/poll.c), logging, configuration,
-- `get_cachedir_file` and `index_directory` of src/get.c. Of
-- `read_header` the refill of the buffer is left out, and of `process_header_end` what follows the
-- call of translate_uri. A component other than
-- Response keeps of an error reply only which one it is. The debug output and the branches for a
-- failed allocation are left out, but for those of the hash tables. Time(2) and gmtime(3) are not
-- called: a reply gets broken-down times.
pub mod Common
pub mod PathClean
pub mod Decimal
pub mod Range
pub mod Escape
pub mod Uri
pub mod HttpDate
pub mod Status
pub mod Buffer
pub mod MmapCache
pub mod FileSend
pub mod Hash
pub mod Get
pub mod Access
pub mod Host
pub mod Pipe
pub mod Queue
pub mod Response
pub mod Alias
pub mod Body
pub mod Cgi
pub mod CgiHeader
pub mod Request
pub mod Logline
pub mod Listing
pub mod Loop
pub mod Options
pub mod Header
mod Examples
