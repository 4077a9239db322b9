-- ===== src/Frpc.antt =====
-- src/handlers/cppfrpchandler/cppfrpchandler.cc and its header: the worker of the FRPC handler, the
-- answer to forbidden addresses, and the methods that are registered with the FRPC server.
pub mod Serving
pub mod Thread
pub mod Callbacks
pub mod Answers
use threadserver.Prelude.{
  ℕ, Bool, true, false, ◌&&◌, ◌||◌, not, Option, none, some, List, [], ◌∷◌, ◌++◌, Bytes, codes,
  same, take, is_empty, Result, ok, err, if◌then◌else◌,
}
use threadserver.Prelude.Int.{ℤ, pos}
use threadserver.Prelude.Exec.{Exec, pure, throw, lift, try_catch, modify, ◌>>=◌, ◌>>◌}
use threadserver.Listener.{SocketWork}
use threadserver.Http.Message.{Exception, what}
use threadserver.Http.Library.{Library}
use threadserver.Errors.{c_str}
use threadserver.Http.Worker.{error_text}
use threadserver.Http.Worker.Handle.{cannot_send}

abbrev three : List Bytes → Option (Bytes × Bytes × Bytes)
three (a ∷ b ∷ c ∷ []) = some (a, b, c)
three _ = none

abbrev pub bad_request_text : Bytes
bad_request_text =
    codes "HTTP/1.0 400 Bad Request\r\nAccept: text/xml, application/x-frpc\r\n"
    ++ codes "Server: ThreadServer/CppFrpcHandler Linux\r\n\r\n"

abbrev pub forbidden_text : Bytes
forbidden_text =
    codes " 403 Forbidden\r\nAccept: text/xml, application/x-frpc\r\n"
    ++ codes "Server: ThreadServer/CppFrpcHandler Linux\r\n\r\n"

module _ (lib : Library) where
  open lib use {Header, Io, no_headers, read_line, split_by_space, read_header, send_raw}

  -- What `frpc->serve` works on: the connection, and the headers that it is given.
  pub record Served : Type 0 where
    pub io : Io
    pub headers_in : Header
    pub headers_out : Header

  -- The connection, and the thread's `module->_headersIn`, `module->_headersOut` and `handler->work`.
  pub record World : Type 0 where
    pub io : Io
    pub headers_in : Option Header
    pub headers_out : Option Header
    pub work : Option SocketWork

  abbrev pub answer_bad : Exception → Exec Io Exception (Unit {0})
  answer_bad e = try_catch (send_raw bad_request_text) (cannot_send lib)

  -- `forbidden`: whatever is thrown while the request is read is answered and not thrown again.
  unfoldable pub forbidden : Exec Io Exception (Unit {0})
  forbidden =
      try_catch
        (do
          line ← read_line
          protocol ← lift (elim (three (split_by_space line 3)) [
            | none ↦ err (error_text (codes "Bad HTTP request: " ++ c_str (take 30 line)))
            | some words ↦ ok words.2
          ])
          if not (same protocol (codes "HTTP/1.0")) && not (same protocol (codes "HTTP/1.1"))
              then throw
                  (error_text (codes "Bad HTTP protocol version or type: " ++ c_str protocol))
              else do headers ← read_header; send_raw (protocol ++ forbidden_text))
        answer_bad

  abbrev pub start : SocketWork → Exec World Exception (Unit {0})
  start socket = modify (λ w. record w {
    headers_in = some no_headers;
    headers_out = some no_headers;
    work = some socket;
  })

  abbrev pub release : Exec World Exception (Unit {0})
  release = modify (λ w. record w { headers_in = none; headers_out = none; work = none })

  -- `serve` with the two headers that were made for it
  abbrev pub call : Exec Served Exception (Unit {0}) → Exec World Exception (Unit {0})
  call serve w =
      let (r, after) =
        serve (record { io = w.io; headers_in = no_headers; headers_out = no_headers }) in
      (
        r,
        record w {
          io = after.io;
          headers_in = some after.headers_in;
          headers_out = some after.headers_out;
        },
      )

  abbrev pub on_io : Exec Io Exception (Unit {0}) → Exec World Exception (Unit {0})
  on_io m w = let (r, io') = m w.io in (r, record w { io = io' })

  -- `Worker_t::handle`
  unfoldable pub handle :
      Exec Served Exception (Unit {0}) → SocketWork → Exec World Exception (Unit {0})
  unfolding forbidden
  handle serve socket =
      if socket.forbidden
      then on_io forbidden
      else (do start socket; try_catch (call serve) (λ e. release >> throw e); release)

-- What a method may throw: an `RpcError_t`, another `std::exception`, or a value of another type.
pub data Thrown : Type 0 where
  rpc_error : ℤ → Bytes → Thrown
  std_exception : Bytes → Thrown
  unknown : Thrown

-- `BoundMethod_t::call` over a pool of the FRPC library, which `status` makes a struct in.
module _ {Pool Value : Type 0} (status : ℤ → Bytes → Pool → Value × Pool) where
  abbrev pub answer_status : ℤ → Bytes → Exec Pool Thrown Value
  answer_status code text pool = let (value, pool') = status code text pool in (ok value, pool')

  unfoldable pub answer_thrown : Thrown → Exec Pool Thrown Value
  answer_thrown (rpc_error code text) = answer_status code text
  answer_thrown (std_exception text) = answer_status (pos 500) text
  answer_thrown unknown = throw unknown

  unfoldable pub call_bound : Exec Pool Thrown Value → Exec Pool Thrown Value
  unfolding answer_thrown
  call_bound handler = try_catch handler answer_thrown

-- `loadHelp`, over a file system that gives the content of a file that can be opened. The `err` is the
-- name of the file in the error's text.
unfoldable pub load_help :
    (open_file : Bytes → Option Bytes) → (help_directory method_name : Bytes) → Result Bytes Bytes
load_help open_file help_directory method_name =
    if is_empty help_directory
    then ok (codes "No help directory given")
    else elim (open_file (help_directory ++ (b'/' ∷ method_name))) [
      | none ↦ err (help_directory ++ (b'/' ∷ method_name))
      | some content ↦ ok content
    ]

-- `registerMethod`: the entry of the FRPC registry, with the help.
pub record Entry (Method : Type 0) : Type 0 where
  pub method_name : Bytes
  pub method : Method
  pub signature : Bytes
  pub help : Bytes

unfoldable pub register_method :
    {Method : Type 0} (open_file : Bytes → Option Bytes)
    → (help_directory method_name : Bytes) → Method
    → (signature : Bytes) → Exec (List (Entry Method)) Bytes (Unit {0})
unfolding load_help
register_method open_file help_directory method_name method signature = do
  help ← lift (load_help open_file help_directory method_name)
  modify (λ entries.
      entries
      ++ record { method_name = method_name; method = method; signature = signature; help = help }
        ∷ [])
