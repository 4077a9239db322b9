-- ===== src/Tests/Answers.antt =====
-- An example of the method of the example module, from a request line to the bytes of the answer.
use threadserver.Prelude.{◌≡◌, refl, some, none, [], ◌∷◌, ◌++◌, List, Bytes, codes, ok, find, same}
use threadserver.Prelude.Int.{pos}
use threadserver.Prelude.Map.{lookup, push_at}
use threadserver.Errors.{c_str}
use threadserver.Http.Message.{Request, new_request, query_of, path_of}
use threadserver.Http.Params.{get_first, parse, store, unescape}
use threadserver.Http.Methods.{form_params, query_params, has_body}
use threadserver.Http.Worker.{served, info2, read_request}
use threadserver.Http.Worker.Handle.{handle}
use threadserver.Examples.{example_text}
use threadserver.Examples.Serving.{registry_of, head_text, handle-test_method}
use threadserver.Tests.{pieces, at_ampersands}
use threadserver.Tests.Requests.{wire, socket, world, next_line, send}

abbrev shown : Bytes → Bytes
shown text = text

abbrev line : Bytes
line = codes "GET /test?test=a%22+b HTTP/1.0"

abbrev request : Request (List (Bytes × Bytes))
request = record (new_request (List (Bytes × Bytes)) []) {
  method = codes "GET";
  unparsed_uri = codes "/test?test=a%22+b";
  uri = codes "/test";
  protocol = codes "HTTP/1.0";
  content_type = codes "text/plain";
}

abbrev sent : Bytes
sent = head_text shown (codes "3.14926") wire at_ampersands request

abbrev body : Bytes
body = example_text shown (codes "3.14926") (some (codes "a\" b"))

handle-test_method_example :
    handle wire
      (registry_of shown (codes "3.14926") wire at_ampersands (codes "/test"))
      socket
      (world line)
    ≡ (
      ok tt,
      record {
        io = ([], sent ++ body);
        work = none;
        log = served info2 [] (pos 200) (codes "GET") (codes "/test?test=a%22+b") ∷ [];
      },
    )
unfolding read_request new_request form_params query_params query_of path_of find same parse store
    push_at unescape get_first lookup at_ampersands pieces has_body next_line send c_str
handle-test_method_example =
    handle-test_method shown (codes "3.14926") wire at_ampersands socket (world line)
      (codes "/test") request [] (some (codes "a\" b")) ([], []) ([], sent) ([], sent ++ body) refl
      refl refl refl refl refl
