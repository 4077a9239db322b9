-- ===== src/Examples/Serving.antt =====
-- A request for the example's method, from the connection and back to it.
use threadserver.Prelude.{
  ◌≡◌, ap, ◌∙◌, Option, none, some, List, [], ◌∷◌, ◌++◌, Bytes, codes, ok, false, decimal,
}
use mathlib.Core.List.{append-nil}
use threadserver.Prelude.Int.{pos}
use threadserver.Errors.{c_str}
use threadserver.Listener.{SocketWork}
use threadserver.Http.Message.{Request, Response, new_response}
use threadserver.Http.Library.{Library}
use threadserver.Http.Params.{get_first}
use threadserver.Http.Methods.{json_type, form_params, query_params, json_method}
use threadserver.Http.Worker.{
  World, Registry, served, info2, access_level, read_request, find_method, settle,
}
use threadserver.Http.Worker.Reason.{reason}
use threadserver.Http.Worker.Handle.{respond, output_text, access_line, handle}
use threadserver.Http.Worker.Handle.Answer.{handle-answered}
use threadserver.Examples.{text_of, test_method, example_text, json_method-test_method}

module _ {Double : Type 0} (show_double : Double → Bytes) (number : Double) (lib : Library)
    (tokens : Bytes → List Bytes) where
  open lib use {Header, Io, Regex, no_headers, header_set, print_headers, send_data, regex_match}

  -- The example's method under one location.
  abbrev pub registry_of : Regex → Registry lib
  registry_of regex =
      (
        regex,
        json_method Header tokens (text_of show_double number)
            (test_method show_double number Header),
      )
      ∷ []

  -- The status line and the headers of the answer.
  abbrev pub head_text : Request Header → Bytes
  head_text request =
      request.protocol
      ++ (codes " 200 OK\r\n"
          ++ (print_headers (header_set no_headers (codes "Content-Type") json_type)
              ++ codes "\r\n"))

  abbrev response_of : Request Header → Option Bytes → Response Header
  response_of request test = record (new_response Header no_headers request) {
    content_type = json_type;
    data_text = example_text show_double number test;
    headers = header_set no_headers (codes "Content-Type") json_type;
  }

  respond-test_method :
      (regex : Regex) (request : Request Header) (groups : List Bytes) (test : Option Bytes)
      → regex_match regex (c_str request.uri) ≡ some groups
      → get_first some (codes "test") (form_params Header tokens request) ≡ ok test
      → respond lib (registry_of regex) request ≡ (
        record request { match_groups = request.match_groups ++ groups },
        response_of request test,
        [],
      )
  unfolding respond find_method settle new_response form_params query_params
  respond-test_method regex request groups test matches first =
      let request' = record request { match_groups = request.match_groups ++ groups } in
      let response = record (new_response Header no_headers request) {
        content_type = codes "text/plain";
      } in
      rw (matches, respond)
        (ap (λ p. (request', (settle lib request' p.0 p.1).0, (settle lib request' p.0 p.1).1))
          (json_method-test_method show_double number Header tokens request' response test first))

  -- From the connection and back to it: a request from an allowed address, whose path the expression of
  -- the example's method matches, and whose parameters have `test` as the first value of that name, or
  -- no value. If both parts of the answer can be sent, they are the status line of 200 with the type
  -- of JSON among the headers, and the text of the struct that the method builds, its fields in
  -- increasing order of their names, with that value, escaped, if there is one. Then the request has
  -- one access line, and the thread's `work` is empty.
  pub handle-test_method :
      (socket : SocketWork) (w : World lib) (regex : Regex) (request : Request Header)
      (groups : List Bytes) (test : Option Bytes) (io io' io'' : Io)
      → socket.forbidden ≡ false
      → read_request lib w.io ≡ (ok request, io)
      → regex_match regex (c_str request.uri) ≡ some groups
      → get_first some (codes "test") (form_params Header tokens request) ≡ ok test
      → send_data (head_text request) io ≡ (ok tt, io')
      → send_data (example_text show_double number test) io' ≡ (ok tt, io'')
      → handle lib (registry_of regex) socket w ≡ (
        ok tt,
        record {
          io = io'';
          work = none;
          log = w.log ++ served info2 [] (pos 200) request.method request.unparsed_uri ∷ [];
        },
      )
  unfolding output_text access_line access_level new_response reason decimal
  handle-test_method socket w regex request groups test io io' io'' allowed read matches first head
        body =
      handle-answered lib (registry_of regex) socket w request
        (record request { match_groups = request.match_groups ++ groups })
        (response_of request test) [] io io' io'' allowed read
        (respond-test_method regex request groups test matches first) head body
      ∙ ap (λ lines. (ok tt, record { io = io''; work = none; log = lines }))
          (ap (λ lines. lines ++ served info2 [] (pos 200) request.method request.unparsed_uri ∷ [])
            (append-nil w.log))
