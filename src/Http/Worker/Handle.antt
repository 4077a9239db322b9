-- ===== src/Http/Worker/Handle.antt =====
-- `Worker_t::handle` from the request to the answer, and `CppHttpHandler_t::forbidden`.
pub mod Answer
pub mod Release
use threadserver.Prelude.{
  ℕ, Bool, true, false, Option, none, some, List, [], ◌∷◌, ◌++◌, ◌&&◌, not, Bytes, codes, same,
  take, Result, ok, err, if◌then◌else◌,
}
use threadserver.Prelude.Int.{ℤ, pos}
use threadserver.Prelude.Exec.{Exec, pure, throw, lift, try_catch, modify, ◌>>=◌, ◌>>◌}
use threadserver.Listener.{SocketWork}
use threadserver.Http.Message.{Exception, what, Request, Response, new_response}
use threadserver.Errors.{c_str}
use threadserver.Http.Library.{Library}
use threadserver.Http.Worker.{
  LogLine, bad_request, served, exception, unknown_exception, error_text, show_int, access_level,
  sliced, three, bad_request_text, forbidden_text, not_found_text, World, Registry, read_request,
  find_method, settle,
}
use threadserver.Http.Worker.Reason.{reason}

module _ (lib : Library) where
  open lib use {
    Header, Io, no_headers, print_headers, read_line, split_by_space, read_header, send_raw,
    send_data,
  }

  -- The response to a request, and the lines that are logged on the way.
  unfoldable pub respond :
      Registry lib → Request Header → Request Header × Response Header × List LogLine
  respond registry request =
      let response = record (new_response Header no_headers request) {
        content_type = codes "text/plain";
      } in
      elim (find_method lib registry request.uri) [
        | some (method, groups) ↦
            let request' = record request { match_groups = request.match_groups ++ groups } in
            let (result, response') = method request' response in
            let (final, log) = settle lib request' result response' in (request', final, log)
        | none ↦ (
          request,
          record response {
            status = pos 404;
            data_text = response.data_text ++ not_found_text request.unparsed_uri;
          },
          [],
        )
      ]

  -- `outputStr`: the status line and the headers.
  unfoldable pub output_text : Response Header → Bytes
  unfolding show_int reason
  output_text response =
      response.protocol
      ++ (b' '
          ∷ (show_int response.status
              ++ (b' '
                  ∷ (reason response.status response.status_message
                      ++ (codes "\r\n" ++ (print_headers response.headers ++ codes "\r\n"))))))

  unfoldable pub access_line : Request Header → Response Header → List LogLine
  access_line request response =
      if response.dont_log
      then []
      else served (access_level response.status) response.debug_log_info response.status
          request.method request.unparsed_uri
        ∷ []

  abbrev pub on_io : {E A : Type 0} → Exec Io E A → Exec (World lib) E A
  on_io m w = let (r, io') = m w.io in (r, record w { io = io' })

  abbrev pub log_lines : List LogLine → Exec (World lib) Exception (Unit {0})
  log_lines lines = modify (λ w. record w { log = w.log ++ lines })

  -- `work.release()`
  abbrev pub release : Exec (World lib) Exception (Unit {0})
  release = modify (λ w. record w { work = none })

  -- `catch (const std::exception &e) { throw Error_t("Can't send data: %s", e.what()); }`
  abbrev pub cannot_send : Exception → Exec Io Exception (Unit {0})
  cannot_send e = elim (what e) [
    | some text ↦ throw (error_text (codes "Can't send data: " ++ text))
    | none ↦ throw e
  ]

  -- The `catch (...)` around the reading of a request.
  unfoldable pub refuse : Bytes → Exec (World lib) Exception (Unit {0})
  refuse request_line = do
    log_lines (bad_request request_line ∷ [])
    on_io (try_catch (send_raw bad_request_text) cannot_send)

  unfoldable pub answer : Registry lib → Request Header → Exec (World lib) Exception (Unit {0})
  answer registry request =
      let (request', response, log) = respond registry request in
      do
        log_lines log
        on_io (send_data (output_text response))
        on_io (send_data response.data_text)
        log_lines (access_line request' response)

  abbrev pub read_or_refuse :
      Registry lib → Result Bytes (Request Header) → Exec (World lib) Exception (Unit {0})
  read_or_refuse registry (err line) = refuse line
  read_or_refuse registry (ok request) = answer registry request

  -- The block of the outer `try`.
  unfoldable pub serve : Registry lib → Exec (World lib) Exception (Unit {0})
  serve registry w =
      let (r, io') = read_request lib w.io in read_or_refuse registry r (record w { io = io' })

  -- Its handlers: both release `work` and throw.
  unfoldable pub fail : Exception → Exec (World lib) Exception (Unit {0})
  fail e = elim (what e) [
    | some text ↦ (do log_lines (exception text ∷ []); release; throw sliced)
    | none ↦ (do log_lines (unknown_exception ∷ []); release; throw e)
  ]

  abbrev pub text_400 : Exec Io Exception (Unit {0})
  text_400 = try_catch (send_raw bad_request_text) cannot_send

  -- `forbidden`: what was thrown while the request was read is thrown again after the answer.
  unfoldable pub forbidden : Exec Io Exception (Unit {0})
  forbidden =
      try_catch
        (do
          line ← read_line
          protocol ← lift (elim (three (split_by_space line 3)) [
            | none ↦ err (error_text (codes "Bad HTTP request: " ++ c_str (take 30 line)))
            | some words ↦ ok words.2
          ])
          if not (same protocol (codes "HTTP/1.0")) && not (same protocol (codes "HTTP/1.1"))
              then throw
                  (error_text (codes "Bad HTTP protocol version or type: " ++ c_str protocol))
              else do headers ← read_header; send_raw (protocol ++ forbidden_text))
        (λ e. text_400 >> throw e)

  -- `handle`, past the test of the flag.
  unfoldable pub handle_allowed : Registry lib → SocketWork → Exec (World lib) Exception (Unit {0})
  handle_allowed registry socket = do
    modify (λ w. record w { work = some socket })
    try_catch (serve registry) fail
    release

  -- `handle`
  unfoldable pub handle : Registry lib → SocketWork → Exec (World lib) Exception (Unit {0})
  handle registry socket =
      if socket.forbidden then on_io forbidden else handle_allowed registry socket
