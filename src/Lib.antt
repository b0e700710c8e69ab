-- ===== src/Lib.antt =====
-- 80s: a small non-blocking web server whose workers run Lua scripts. This library models parts of
-- its C core, src/80s, and of the C++ layer on it, src/90s, and proves what makes them right.
--
-- The parts, and how they meet:
--   * Dynstr (src/80s/dynstr.c): a string that grows. Every codec writes through it, json_decode reads
--     texts into it. A record with the fields of the C struct; `ptr` holds the bytes written so far.
--     calloc and realloc are an `Allocator`, two predicates that say which sizes are granted.
--   * Kmp (src/80s/algo.c): the string search behind readers of the network. `build_kmp` and `kmp` are
--     loops on fuel; a table entry e, which starts at -1, is kept as e + 1. Kmp/Agree says what a row
--     of the table means, Kmp/Build is about the table, Kmp/Answer about the loop, Kmp/Search about
--     `kmp` as a whole.
--   * Codec (src/80s/lua_codec.c): Hex, Url and Escape (mysql and html) are the text codecs that Lua
--     calls, each with the guard on its arguments (Codec/Lua). Codec/Emit is what they share, text
--     that goes piece by piece into a Dynstr. Codec/Json is `json_decode`: Mode is its enum of states,
--     Machine its local variables, Api the calls of the Lua C API as an interface with the stack
--     heights of the manual and a flag for calls that do not return, Decode the loop with one function
--     per state. Codec/Encode is `json_encode` and `lua_encode` over a tree of Lua values in the order
--     of lua_next, a number standing for the text that snprintf gives, and of tables where no number key
--     is turned into text in place (`can_walk`); Print says what text a value has, and Strings and
--     ReadBack run the states of `json_decode` on what `encode_string` wrote.
--   * Mailbox (src/80s/80s_common.c, s80_mail and resolve_mail; src/80s/serve.epoll.c, the self pipe):
--     how workers hand messages to each other. The semaphore makes s80_mail and the first half of
--     resolve_mail single steps; Mailbox/Delivery orders them in any way, with the bytes in the pipe.
--     Shutdown has s80_quit, which writes to every pipe.
--   * Process (src/80s/80s_common.c, s80_popen and cleanup_pipes): the pipes of a child process, over
--     an interface of the system calls (Process/Calls) that says which descriptors are open and watched.
--     The child's side of the fork and O_NONBLOCK are not in it.
--   * Socket (src/80s/80s_common.c): s80_write, one write with the answers of write and epoll_ctl as
--     parameters; Connect has s80_connect and s80_close, over the interface of Process extended by
--     sockets and the resolver (Calls), Outcomes what is open and watched behind them.
--   * Loop (src/80s/serve.epoll.c, the loop of `serve`): the events of one worker, what `accept`, `read`
--     and `is_fd_ready` answer being part of the event, and the calls that it makes being recorded. An
--     accepted socket goes to a worker through its mailbox, the bytes of the self pipe to Mailbox.
--     Loop/Kqueue (src/80s/serve.kqueue.c) is the loop for BSD on the same variables and actions, and
--     Platforms says where the two agree.
--   * Workers (src/80s/80s.c, `run`; src/80s/80s_common.c, s80_reload): the workers wait for each other
--     before they serve with newly loaded libraries. Each access to what they share is one move of a step
--     relation, s80_reload being several; Count counts workers, Barrier is about the relation. That
--     `ready++` and the comparison behind it are one step is an assumption.
--   * Args (src/80s/80s.c): the functions that read the command line, `atoi` being a parameter; Lines
--     has command lines made of options, to read. Modules is the list of modules in `main`.
--   * Net (src/80s/lua_net.c): functions that scripts call. Headers is the parser of HTTP headers, its
--     pointers into the text being indices; Mail is l_net_mail on top of Mailbox; Partscan is the
--     search on top of Kmp; Readfile reads a file into a Dynstr; Inotify takes the events of the
--     kernel apart, which Inotify/Read writes as inotify(7) says.
--   * Afd (src/90s/afd.cpp): how a descriptor with promises writes, without its TLS layer. What
--     s80_write answers is a parameter; the bytes that it took and the promises that were resolved are
--     recorded. Settle is the loop over the promises, Stream what holds between the calls, Calls the
--     calls of `write`, Failure what happens at the end.
--   * Crypto (src/80s/crypto.c): Cipher is crypto_cipher, over OpenSSL's cipher and HMAC as functions
--     that may fail (Engine); Keys, Sign and Tls (contexts) are over an interface that counts the live
--     objects of each kind (Library, with its rules in Balance). The functions for SHA-1 and SHA-256
--     are one function of the digest. Tls also has what the calls on a connection report.
-- Common has the shared helpers: Boolean tests, lists by index, Option chains.
--
-- Numbers: sizes and characters are natural numbers; a size_t that can wrap is taken modulo 2 ^ 64, a
-- difference that can fall below 0 as size_t does (`sub_size`). A char is its byte; where its sign
-- matters (Codec/Url) the sign is a case of its own. Dynamic strings are bounded by 2 ^ 62 bytes of
-- storage and 2 ^ 60 of text in the theorems that say so.
-- Fuel: url_decode has one unit per byte. `kmp` has 2 * len + 1: each round moves the text on or
-- shortens the match. json_decode has 64 * len + 8: a round that leaves the text where it is leaves a
-- state, of which there are at most 31, or enters one that cannot do so again. Each is proved to be
-- enough.
--
-- `write_rounds` (Afd) has one unit per answer of s80_write; an answer above 0 is shown to end it.
--
-- Not modelled: the start of a worker in src/80s/serve.epoll.c and src/80s/serve.kqueue.c, the loop
-- for Windows and its port (src/80s/serve.iocp.c, 80s_common.windows.c), the memory BIOs and kernel
-- TLS of src/80s/crypto.c, the sockets and threads that `main` makes, the Lua bindings that only pass
-- arguments on, and of src/90s all but the writing of an afd: it is C++ with coroutines.
pub mod Common
pub mod Dynstr
pub mod Kmp
pub mod Codec
pub mod Crypto
pub mod Mailbox
pub mod Process
pub mod Socket
pub mod Loop
pub mod Afd
pub mod Args
pub mod Net
pub mod Workers
