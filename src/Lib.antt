-- ===== src/Lib.antt =====
-- Verification library of threadserver, a server process that loads handlers from shared objects,
-- listens on TCP addresses, screens connections by networks and has worker threads serve them.
--
-- Parts, from the configuration to the answer:
--   Configuration   src/threadserver/configuration.cc and include/threadserver/configuration.h: the
--                   constructor `Configuration_t` (`configure`) and the getters (`get`, `get_vector`).
--   Server          src/threadserver/threadserver.cc: `registerHandler` (`load_handler`),
--                   `registerListener` and the loops over the names; the state has the map of
--                   handlers, the set of handles, the references that the loader counts as open, and
--                   the map of listeners. Server/Guard is the loop that forks the server, and
--                   Server/Lifetime has the calls of `createWorkers`, `run` and `stop`. Server/Start
--                   is the constructor, with `detach` in Server/Detach, and Server/Unloading the end of
--                   a server process, with the destructor.
--   Network         src/threadserver/network.cc: `Network_t::parse` and `contains`, on 32-bit addresses.
--   Listener        src/threadserver/listener.cc and work.cc: the constructor, `parseAddress`,
--                   `isForbidden`, and the accept loop as a sequence of ended accepts.
--   Http            src/handlers/cpphttphandler/cpphttphandler.cc and its header: parameters
--                   (Http/Params, Http/Mime), messages (Http/Message), the wrappers of methods
--                   (Http/Methods), `Worker_t::handle` (Http/Worker, Http/Worker/Handle), and a thread
--                   with the methods that its module registers (Http/Thread).
--   Workers         src/threadserver/handler.cc: the loop `Handler_t::Worker_t::run` over what its
--                   calls of `dequeue` return.
--                   Workers/Pool has the handler with its queue and its threads, in any interleaving;
--                   Workers/Refused follows connections from the listener to the worker.
--   Modules         the constructors of the HTTP and the FRPC handler in
--                   src/handlers/cpphttphandler/cpphttphandler.cc and
--                   src/handlers/cppfrpchandler/cppfrpchandler.cc: the settings, and the loading of the
--                   module with the references to shared objects that the guards hold.
--   Frpc            src/handlers/cppfrpchandler/cppfrpchandler.cc and its header: the worker, the answer
--                   to forbidden addresses, the call of a method and the help texts. Frpc/Thread has a
--                   thread with its own server and the methods that are registered in it, and
--                   Frpc/Callbacks the lines that are logged around a call.
--   Dummy           src/handlers/dummyhandler/dummyhandler.cc: the handler that answers by one text.
--   Errors          src/threadserver/error.cc and the errors with a code of both handlers: the texts.
--   Examples        src/handlers/cpphttphandler/testmodule/httpinterface.cc: the example's method,
--                   and in Examples/Serving its way from the request to the answer.
--   Job             src/threadserver/job.cc: the threads of a job, and `start` and `stop`.
--   Main            src/threadserver/main.cc: `signalHandler` and the ends of `main`.
--   Json            src/handlers/cpphttphandler/json.cc: the pool of values, and their texts. Json/Tree
--                   has the values without their addresses, and a reader of JSON texts;
--                   Json/Conversions has what is taken from values of the JsonCpp library.
-- A listener gives each accepted connection, with its flag, to the handler that the server wired it
-- to; a worker of that handler calls `handle`, which reads a request, calls the first method whose
-- expression matches, and sends the response. A method's wrapper parses parameters and, for JSON,
-- prints the value that the method built in a pool.
--
-- How code is modelled. Texts are lists of byte values. Code that throws gives a `Result`; code that
-- also changes a state is an `Exec`, in which what was changed before a throw stays changed. Loops are
-- structural recursion, except for the printing of JSON values, which takes fuel: without cycles a
-- value of rank r (above the ranks of what it refers to) needs r + 1, the depth of the recursion, and
-- in a cycle the code itself does not end.
-- Addresses are numbers below 2 ^ 32, the shift of a netmask is on 64 bits, and the bound of
-- `unescape` wraps at 2 ^ 64 as `size_t` does.
--
-- Parameters. `Boost` has the conversions of boost, `Documented` what its documentation says of them,
-- and Boost/Sample an instance with the proof. The tokenizer of parameters, the mimetic library
-- (`Mimetic`), the values of the JsonCpp library (`JsonCpp`), and the connection, the headers and the
-- regular expressions (`Library`) are parameters too; of these only the tokenizer is assumed to split
-- at "&". `Loader` and `ModuleLoader` are the dynamic loader, and `Queue` is the queue between
-- listeners and workers, with `IsQueue` what is assumed of it: first in, first out, and no call waits
-- once it is finished.
--
-- Server/Detach and Server/Start take what the system calls come to as an argument. `Printf` is
-- `vsnprintf`, of which the theorems assume what the C standard says of a format with no percent sign
-- and of a conversion with no argument. `Connection` is the socket of the dummy handler.
--
-- Not modelled: sockets, and what the kernel does; the text of most log messages; the FRPC server;
-- `JsonRPCMethod_t`, whose errors call a constructor that `HttpError_t` does not have.
pub mod Prelude
pub mod Boost
pub mod Network
pub mod Listener
pub mod Http
pub mod Json
pub mod Configuration
pub mod Server
pub mod Errors
pub mod Workers
pub mod Main
pub mod Modules
pub mod Frpc
pub mod Dummy
pub mod Job
pub mod Examples
pub mod Tests
