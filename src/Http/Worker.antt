-- ===== src/Http/Worker.antt =====
-- `CppHttpHandler_t::Worker_t::handle` and `CppHttpHandler_t::forbidden` of cpphttphandler.cc.
-- The world of a worker is the connection, the thread-specific `handler->work` and the log.
pub mod Reason
pub mod Handle
use threadserver.Prelude.{
  ℕ, zero, suc, ◌+◌, ◌/◌, Bool, true, false, Option, none, some, List, [], ◌∷◌, ◌++◌, ◌&&◌, ◌||◌,
  not, Bytes, codes, find, same, take, or_else, Result, ok, err, ltb, ◌==◌, if◌then◌else◌, decimal,
}
use threadserver.Prelude.Int.{ℤ, pos, negsuc}
use threadserver.Prelude.Exec.{Exec, pure, throw, lift, try_catch, modify, ◌>>=◌, ◌>>◌}
use threadserver.Listener.{SocketWork}
use threadserver.Http.Message.{
  Exception, http_error, broken_pipe, std_exception, unknown, what, Request, Response, new_request,
  new_response, path_of,
}
use threadserver.Http.Library.{Library}
use threadserver.Errors.{c_str, buffered}

pub data Level : Type 0 where
  info2 warn2 err2 err3 : Level

-- The lines that are logged. An empty `debug` leaves its prefix out.
pub data LogLine : Type 0 where
  bad_request : (request_line : Bytes) → LogLine
  method_threw : (debug uri text : Bytes) → LogLine
  method_threw_unknown : (debug uri : Bytes) → LogLine
  served : Level → (debug : Bytes) → ℤ → (method unparsed_uri : Bytes) → LogLine
  exception : Bytes → LogLine
  unknown_exception : LogLine

-- `Error_t(format, ...)`, by the text that the format stands for
abbrev pub error_text : Bytes → Exception
error_text text = std_exception (buffered text)

-- `output << status`
unfoldable pub show_int : ℤ → Bytes
show_int (pos n) = decimal n
show_int (negsuc n) = b'-' ∷ decimal (suc n)

-- The level of the access line: `status / 100` is below 4, below 5, or not.
unfoldable pub access_level : ℤ → Level
access_level (negsuc n) = info2
access_level (pos n) = if ltb (n / 100) 4 then info2 else if ltb (n / 100) 5 then warn2 else err2

-- `throw e` of a `const std::exception &` throws a copy of its base class.
abbrev pub sliced : Exception
sliced = std_exception (codes "std::exception")

abbrev three : List Bytes → Option (Bytes × Bytes × Bytes)
three (a ∷ b ∷ c ∷ []) = some (a, b, c)
three _ = none

abbrev pub bad_request_text : Bytes
bad_request_text =
    codes "HTTP/1.0 400 Bad Request\r\nServer: ThreadServer/CppHttpHandler Linux\r\n\r\n"

abbrev pub forbidden_text : Bytes
forbidden_text = codes " 403 Forbidden\r\nServer: ThreadServer/CppHttpHandler Linux\r\n\r\n"

abbrev pub not_found_text : Bytes → Bytes
not_found_text unparsed_uri =
    codes "<html><head><title>404 Not Found</title></head><body><h1>404 Not Found</h1>"
    ++ (codes "The requested URL "
        ++ (unparsed_uri
            ++ (codes " was not found on this server.<hr />" ++ codes "</body></html>")))

module _ (lib : Library) where
  open lib use {
    Header, Io, Regex, no_headers, header_get, header_set, print_headers, read_line, split_by_space,
    read_header, read_content, send_raw, send_data, regex_match,
  }

  pub record World : Type 0 where
    pub io : Io
    pub work : Option SocketWork
    pub log : List LogLine

  -- A registered method changes the response, and may throw after that.
  abbrev pub Method : Type 0
  Method = Request Header → Exec (Response Header) Exception (Unit {0})

  abbrev pub Registry : Type 0
  Registry = List (Regex × Method)

  -- `Worker_t::handle` catches whatever the reading throws, and knows only the request line as it
  -- was at that time.
  abbrev forget : {A : Type 0} → Bytes → Exec Io Exception A → Exec Io Bytes A
  forget line m io = let (r, io') = m io in (elim r [ ok a ↦ ok a | err e ↦ err line ], io')

  -- The request, or the request line that is logged.
  unfoldable pub read_request : Exec Io Bytes (Request Header)
  read_request = do
    line ← forget [] read_line
    (method, unparsed_uri, protocol) ←
        lift (elim (three (split_by_space line 3)) [ none ↦ err line | some words ↦ ok words ])
    if not (same protocol (codes "HTTP/1.0")) && not (same protocol (codes "HTTP/1.1"))
        then throw line
        else do
          headers ← forget line read_header
          text ← forget line (read_content headers)
          pure (record (new_request Header no_headers) {
            method = method;
            unparsed_uri = unparsed_uri;
            uri = path_of unparsed_uri;
            protocol = protocol;
            headers = headers;
            content_type = header_get headers (codes "Content-Type") (codes "text/plain");
            data_text = text;
          })

  -- The first entry whose expression matches, with the groups.
  unfoldable pub find_method : Registry → Bytes → Option (Method × List Bytes)
  find_method [] uri = none
  find_method ((regex, method) ∷ registry) uri = elim (regex_match regex (c_str uri)) [
    | some groups ↦ some (method, groups)
    | none ↦ find_method registry uri
  ]

  -- The handlers of the exceptions of a method.
  unfoldable pub settle :
      Request Header
      → Result Exception (Unit {0})
      → Response Header
      → Response Header × List LogLine
  settle request (ok done) response = (
    record response {
      headers = header_set response.headers (codes "Content-Type") response.content_type;
    },
    [],
  )
  settle request (err (http_error code text)) response =
      (record response { status = code; data_text = text }, [])
  settle request (err unknown) response = (
    record response { status = pos 500; data_text = codes "Unknown exception" },
    method_threw_unknown response.debug_log_info request.uri ∷ [],
  )
  settle request (err (broken_pipe text)) response = (
    record response { status = pos 500; data_text = text },
    method_threw response.debug_log_info request.uri text ∷ [],
  )
  settle request (err (std_exception text)) response = (
    record response { status = pos 500; data_text = text },
    method_threw response.debug_log_info request.uri text ∷ [],
  )
