-- ===== src/Lib.antt =====
-- waeio: a scheduler of fibers and its non-blocking I/O, for programs compiled to WebAssembly.
--
-- The program's parts, from the bottom:
--
-- * src/freelist.c hands out indexes from a bit vector. Freelist.antt has its functions by their
--   names; a list is a record with the words of the vector. Freelist/View.antt gives the set of free
--   entries that a list stands for, and the files beside it prove what each function does to it;
--   Freelist/Clients.antt follows a client over any sequence of calls. `fill_list` is the one of
--   test/freelist_tests.c, whose `main` is in Freelist/Suite.antt. The outcomes of `malloc` and `realloc` are arguments.
-- * inc/wasio.h is the interface of the I/O backends (Wasio.antt): result codes, poll entries, and
--   the functions that a backend imports from its host, which are a record of functions over a state
--   of the host. There are three backends. src/wasio/host_poll.c (Wasio/Poll.antt) keeps the host's
--   own descriptors in one array. src/wasio_host.c (Wasio/Table.antt) hands out virtual descriptors
--   with a freelist and translates them by two arrays; Wasio/Table/Invariant.antt ties the three
--   together and gives the map from virtual to host descriptors that a table stands for;
--   Wasio/Table/Spec.antt says what the backend promises in terms of that map alone, and
--   Wasio/Table/Runs.antt relates the two over any sequence of calls.
--   The structure `Wfd` there has the members that src/wasio_host.c uses, a freelist and the two
--   arrays, which inc/wasio.h does not declare for `struct wasio_pollfd`.
--   src/wasio_wasi.c (Wasio/Wasi.antt) does the same on the C library.
-- * src/waeio.c is the scheduler (Waeio.antt: requests, queues and rounds; Waeio/Main.antt:
--   `waeio_main`) and the functions that fibers call (Waeio/Api.antt), which are coroutines: each
--   stops at its calls of `fiber_yield`, and a data type says at which. It uses the backend of
--   src/wasio_host.c.
-- * src/host/driver is the other side of the imports (Driver.antt; Driver/Socket.antt for socket.c,
--   Driver/Poll.antt for poll.c): the bindings that read the guest's arguments, make the system
--   calls, and write to the guest's memory. What poll(2) makes of the bytes of its entries, to which
--   poll.c only casts a pointer, is part of that parameter.
-- * utils/hostgen.c prints the headers with the error numbers of the platform (Hostgen.antt)
--   and with its masks for poll(2) (Hostgen/Poll.antt).
-- * examples/httpserver has four HTTP servers, which share the responses of http_utils.h
--   (Httpserver/Response.antt) and the choice among them (Httpserver/Request.antt). Three keep their
--   connections in an array that they poll; Httpserver.antt has the loop that removes closed ones.
--   httpserver_bespoke.c has no fibers (Httpserver/Bespoke.antt; Talking.antt beside it: what passes between
--   a client and the server). httpserver_fiber.c is on fibers
--   and the functions of the host (Httpserver/HostFiber.antt: the arrays, the commands, the rounds and
--   `main`; Coroutines.antt beside it: the code of its fibers; Rounds.antt, Listening.antt and
--   Receiving.antt: what the loop assumes of a fiber and what the two kinds of fibers do;
--   Talking.antt: what passes between a connection and its fiber). httpserver_wasio_fiber.c is the same
--   on the poll backend (Httpserver/WasioFiber.antt, with Coroutines.antt, Main.antt and Rounds.antt). httpserver.c
--   runs ready fibers from two bounded queues, on the backend of src/wasio_host.c
--   (Httpserver/Queued.antt, with Coroutines.antt and Main.antt; Accepting.antt and Waiting.antt: what
--   the two kinds of its fibers do).
-- * examples/echoserver/echoserver.c sends back what it receives, on the backend of src/wasio_host.c
--   (Echoserver.antt).
--
-- State is passed explicitly. A call ends with `done`, with `aborted` for a failed assertion or
-- `abort`, or with `fault` for an access that C leaves undefined: an index out of range, a null
-- pointer, a freed block (Prelude/Effects.antt). A 32-bit word is a number with its wrap-around
-- written out; a C `int` is an integer of Prelude/Int.antt.
--
-- Bounds and fuel: the loops of the freelist run over the words of the vector, the first loop of a
-- round over the nodes of the front queue, and the loops over arrays count the entries that are
-- left, so these take no fuel. A loop that asks the host until it has no more, a request loop and
-- a scheduling loop need not end: they take a number of rounds, and give `none`, or in the scheduler
-- no result, when it runs out. Where a theorem says that such a loop ends, it says how many rounds
-- are enough: more than the connections or bytes that wait, or as many as entries of the array are
-- left.
--
-- Parameters: the host's imports, the system calls, the fiber library and the HTTP parser (git
-- submodules), and the macro WASIO_EVENT_FOREACH, which the repository does not define. Not
-- modelled: the registration of bindings with wasmtime, the drivers of the examples, which only load
-- a module into wasmtime, and what is printed to the log.
mod Prelude
pub mod Freelist
pub mod Wasio
pub mod Waeio
pub mod Driver
pub mod Hostgen
pub mod Httpserver
pub mod Echoserver
