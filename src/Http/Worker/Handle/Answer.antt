-- ===== src/Http/Worker/Handle/Answer.antt =====
-- What `Worker_t::handle` answers: the choice of the method, the response for each way in which a
-- method ends, and the sends of a served and of a refused request.
use threadserver.Prelude.{
  ◌≡◌, refl, false, none, some, List, [], ◌∷◌, ◌++◌, All, arith, Bytes, codes, Result, ok, err,
}
use threadserver.Prelude.Int.{ℤ, pos}
use threadserver.Listener.{SocketWork}
use threadserver.Http.Message.{
  Exception, http_error, broken_pipe, std_exception, unknown, Request, Response, new_response,
}
use threadserver.Errors.{c_str}
use threadserver.Http.Library.{Library}
use threadserver.Http.Worker.{
  World, Registry, Method, LogLine, bad_request, read_request, find_method, settle,
  bad_request_text, not_found_text,
}
use threadserver.Http.Worker.Handle.{
  serve, refuse, answer, handle, respond, output_text, access_line,
}
use threadserver.Http.Worker.Handle.Release.{handle_allowed_lem}

module _ (lib : Library) where
  open lib use {Header, Io, Regex, no_headers, regex_match, send_data, send_raw, header_set}

  -- The method of the first entry that matches is called, whatever stands behind it.
  pub find_method-first :
      (before after : Registry lib) (regex : Regex) (method : Method lib) (uri : Bytes)
      (groups : List Bytes)
      → All (λ entry. regex_match entry.0 (c_str uri) ≡ none) before
      → regex_match regex (c_str uri) ≡ some groups
      → find_method lib (before ++ ((regex, method) ∷ after)) uri ≡ some (method, groups)
  unfolding find_method
  find_method-first [] after regex method uri groups h e = ground arith
  find_method-first ((r, m) ∷ before) after regex method uri groups (n, h) e =
      ground (arith, find_method-first before after regex method uri groups h e)

  -- The status and the body that a method's end calls for.
  abbrev pub outcome : Result Exception (Unit {0}) → Response Header → ℤ × Bytes
  outcome (ok done) response = (response.status, response.data_text)
  outcome (err (http_error code text)) response = (code, text)
  outcome (err (broken_pipe text)) response = (pos 500, text)
  outcome (err (std_exception text)) response = (pos 500, text)
  outcome (err unknown) response = (pos 500, codes "Unknown exception")

  -- The headers that are answered: a method that returns has its content type among them.
  abbrev pub headers_after : Result Exception (Unit {0}) → Response Header → Header
  headers_after (ok done) response =
      header_set response.headers (codes "Content-Type") response.content_type
  headers_after (err e) response = response.headers

  -- What a method is given: the request with the groups, and a fresh response of plain text.
  abbrev pub given : Request Header → List Bytes → Request Header
  given request groups = record request { match_groups = request.match_groups ++ groups }

  abbrev pub fresh : Request Header → Response Header
  fresh request = record (new_response Header no_headers request) {
    content_type = codes "text/plain";
  }

  settle_lem :
      (request : Request Header) (r : Result Exception (Unit {0})) (response : Response Header)
      → ((settle lib request r response).0.status ≡ (outcome r response).0)
        × ((settle lib request r response).0.data_text ≡ (outcome r response).1)
        × ((settle lib request r response).0.headers ≡ headers_after r response)
  unfolding settle
  settle_lem request (ok done) response = (refl, refl, refl)
  settle_lem request (err (http_error code text)) response = (refl, refl, refl)
  settle_lem request (err (broken_pipe text)) response = (refl, refl, refl)
  settle_lem request (err (std_exception text)) response = (refl, refl, refl)
  settle_lem request (err unknown) response = (refl, refl, refl)

  -- A method that is found and returns has its own status and body answered, and its content type
  -- among the headers; one that throws has the code and the text of its `HttpError_t`, or 500 and
  -- the text of the exception ("Unknown exception" where it has none), with the headers that it set
  -- before.
  pub respond-found :
      (registry : Registry lib) (request : Request Header) (method : Method lib)
      (groups : List Bytes)
      → find_method lib registry request.uri ≡ some (method, groups)
      → let (result, response) = method (given request groups) (fresh request) in
        let answered = (respond lib registry request).1 in
        (answered.status ≡ (outcome result response).0)
        × (answered.data_text ≡ (outcome result response).1)
        × (answered.headers ≡ headers_after result response)
  unfolding respond
  respond-found registry request method groups found = rw (found, respond) (settle_lem _ _ _)

  -- A request that no entry matches is answered by 404 and a page that names its URI.
  respond-missing :
      (registry : Registry lib) (request : Request Header)
      → find_method lib registry request.uri ≡ none
      → ((respond lib registry request).1.status ≡ pos 404)
        × ((respond lib registry request).1.data_text ≡ not_found_text request.unparsed_uri)
  unfolding respond new_response
  respond-missing registry request missing = rw (missing, respond) (refl, refl)

  serve-refused :
      (registry : Registry lib) (w : World lib) (line : Bytes) (io io' : Io)
      → read_request lib w.io ≡ (err line, io)
      → send_raw bad_request_text io ≡ (ok tt, io')
      → serve lib registry w
        ≡ (ok tt, record { io = io'; work = w.work; log = w.log ++ bad_request line ∷ [] })
  unfolding serve refuse
  serve-refused registry w line io io' read sent = rw (read, serve, sent)

  serve-answered :
      (registry : Registry lib) (w : World lib) (request request' : Request Header)
      (response : Response Header) (lines : List LogLine) (io io' io'' : Io)
      → read_request lib w.io ≡ (ok request, io)
      → respond lib registry request ≡ (request', response, lines)
      → send_data (output_text lib response) io ≡ (ok tt, io')
      → send_data response.data_text io' ≡ (ok tt, io'')
      → serve lib registry w ≡ (
        ok tt,
        record {
          io = io'';
          work = w.work;
          log = (w.log ++ lines) ++ access_line lib request' response;
        },
      )
  unfolding serve answer
  serve-answered registry w request request' response lines io io' io'' read responds head body =
      rw (read, serve, responds, head, body)

  -- For a socket from an allowed address, a request that cannot be read is logged and answered by
  -- the text of 400 alone, if that text can be sent.
  handle-refused :
      (registry : Registry lib) (socket : SocketWork) (w : World lib) (line : Bytes) (io io' : Io)
      → socket.forbidden ≡ false
      → read_request lib w.io ≡ (err line, io)
      → send_raw bad_request_text io ≡ (ok tt, io')
      → handle lib registry socket w
        ≡ (ok tt, record { io = io'; work = none; log = w.log ++ bad_request line ∷ [] })
  unfolding handle
  handle-refused registry socket w line io io' h read sent = simp (
    h,
    handle_allowed_lem,
    serve-refused registry (record w { work = some socket }) line io io' read sent,
  )

  -- For a socket from an allowed address, a request that is read is answered by its response, if
  -- both parts can be sent: the status line with the headers, then the body, and the lines that
  -- `access_line` gives; after that the thread's `work` is empty.
  pub handle-answered :
      (registry : Registry lib) (socket : SocketWork) (w : World lib)
      (request request' : Request Header) (response : Response Header) (lines : List LogLine)
      (io io' io'' : Io)
      → socket.forbidden ≡ false
      → read_request lib w.io ≡ (ok request, io)
      → respond lib registry request ≡ (request', response, lines)
      → send_data (output_text lib response) io ≡ (ok tt, io')
      → send_data response.data_text io' ≡ (ok tt, io'')
      → handle lib registry socket w ≡ (
        ok tt,
        record {
          io = io'';
          work = none;
          log = (w.log ++ lines) ++ access_line lib request' response;
        },
      )
  unfolding handle
  handle-answered registry socket w request request' response lines io io' io'' h read responds head
        body =
      simp (
        h,
        handle_allowed_lem,
        serve-answered registry (record w { work = some socket }) request request' response lines io
            io' io'' read responds head body,
      )
