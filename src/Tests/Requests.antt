-- ===== src/Tests/Requests.antt =====
-- Examples of requests, from the connection to the answer.
use threadserver.Prelude.{
  ◌↔◌, All, ◌≢◌, ◌≡◌, refl, false, none, some, List, [], ◌∷◌, ◌++◌, Bytes, codes, Result, ok, err,
  if◌then◌else◌, same, find,
}
use threadserver.Prelude.Int.{pos}
use threadserver.Prelude.Exec.{Exec, modify, throw, ◌>>◌}
use threadserver.Listener.{SocketWork, v4}
use threadserver.Http.Params.{Data}
use threadserver.Http.Message.{
  Exception, http_error, unknown, Request, Response, new_request, new_response, path_of, what,
}
use threadserver.Errors.{c_str}
use threadserver.Http.Library.{Library}
use threadserver.Http.Methods.{http_method}
use threadserver.Http.Methods.Redirect.{respond-http_error}
use threadserver.Http.Worker.{
  World, Method, Registry, read_request, find_method, bad_request_text, settle,
}
use threadserver.Http.Worker.Handle.{respond, handle, handle_allowed, serve, answer, fail}
use threadserver.Http.Worker.Handle.Answer.{fresh, find_method-first}
use threadserver.Http.Worker.Handle.Release.{work-handle}
use threadserver.Workers.{Report, closed_by_host, run}
use threadserver.Workers.Rounds.{Serves, run-Serves, reports-run}
use threadserver.Tests.{pieces, onto, at_ampersands}

-- A connection: the lines that are still to be read, and what was sent.
abbrev pub Wire : Type 0
Wire = List Bytes × Bytes

unfoldable pub next_line : Wire → Result Exception Bytes × Wire
next_line ([], sent) = (err unknown, ([], sent))
next_line (line ∷ lines, sent) = (ok line, (lines, sent))

unfoldable pub send : Bytes → Exec Wire Exception (Unit {0})
send text (lines, sent) = (ok tt, (lines, sent ++ text))

-- Headers are a list, and an expression is the one text that it matches.
abbrev pub wire : Library
wire = record {
  Header = List (Bytes × Bytes);
  Io = Wire;
  Regex = Bytes;
  no_headers = [];
  header_get = λ headers name value. value;
  header_set = λ headers name value. headers ++ (name, value) ∷ [];
  print_headers = λ headers. [];
  read_line = next_line;
  split_by_space = λ s n. pieces b' ' s;
  read_header = λ io. (ok [], io);
  read_content = λ headers io. (ok [], io);
  send_raw = send;
  send_data = send;
  regex_match = λ regex text. if same regex text then some [] else none;
}

abbrev pub hello : Method wire
hello request = modify (λ response. record response { data_text = codes "hello" })

abbrev moved :
    Request (List (Bytes × Bytes))
    → Data
    → Exec (Response (List (Bytes × Bytes))) Exception (Unit {0})
moved request params =
    modify (λ response. record response { data_text = codes "moved" })
    >> throw (http_error (pos 302) (codes "see /"))

abbrev pub registry : Registry wire
registry =
    (codes "/old", http_method (List (Bytes × Bytes)) at_ampersands moved) ∷ (codes "/", hello) ∷ []

abbrev request_of : Bytes → Request (List (Bytes × Bytes))
request_of uri = record (new_request (List (Bytes × Bytes)) []) {
  method = codes "GET";
  unparsed_uri = uri;
  uri = uri;
  protocol = codes "HTTP/1.0";
  content_type = codes "text/plain";
}

abbrev pub socket : SocketWork
socket = record { listener = codes "*:80"; socket = v4 1; forbidden = false }

abbrev pub world : Bytes → World wire
world line = record { io = (line ∷ [], []); work = none; log = [] }

found_old :
    find_method wire registry (codes "/old")
    ≡ some (http_method (List (Bytes × Bytes)) at_ampersands moved, [])
unfolding c_str same find
found_old =
    find_method-first wire [] ((codes "/", hello) ∷ []) (codes "/old")
      (http_method (List (Bytes × Bytes)) at_ampersands moved) (codes "/old") [] tt refl

respond-http_error_example :
    let answered = (respond wire registry (request_of (codes "/old"))).1 in
    (answered.status ≡ pos 302)
    × (answered.data_text ≡ codes "moved")
    × (answered.headers ≡ (codes "Content-Type", codes "text/plain") ∷ [])
unfolding new_response
respond-http_error_example =
    respond-http_error wire at_ampersands registry (request_of (codes "/old")) [] moved
      (record (fresh wire (request_of (codes "/old"))) { data_text = codes "moved" }) (pos 302)
      (codes "see /") found_old refl

read_bad : read_request wire (world (codes "GET /")).io ≡ (err (codes "GET /"), ([], []))
unfolding read_request next_line pieces onto same find
read_bad = refl

sent_bad : send bad_request_text ([], []) ≡ (ok tt, ([], bad_request_text))
unfolding send
sent_bad = refl

abbrev pub line_of_hello : Bytes
line_of_hello = codes "GET / HTTP/1.0"

abbrev hello_response : Response (List (Bytes × Bytes))
hello_response = record (fresh wire (request_of (codes "/"))) {
  headers = (codes "Content-Type", codes "text/plain") ∷ [];
  data_text = codes "hello";
}

work-handle_example : (handle wire registry socket (world line_of_hello)).1.work ≡ none
work-handle_example = work-handle wire registry socket (world line_of_hello)

-- A connection on which nothing can be sent.
abbrev broken : Library
broken = record wire {
  send_raw = λ text io. (err unknown, io);
  send_data = λ text io. (err unknown, io);
}

abbrev broken_world : World broken
broken_world = record { io = (line_of_hello ∷ [], []); work = none; log = [] }

thrown_by_send : (handle broken registry socket broken_world).0 ≡ err unknown
unfolding handle handle_allowed serve answer fail what read_request next_line pieces onto path_of
    same find new_request respond find_method c_str settle new_response
thrown_by_send = refl

abbrev after_two : World broken × List Report
after_two =
    run (handle broken registry) (some socket ∷ some socket ∷ none ∷ some socket ∷ [])
      (broken_world, [])

run-Serves_example :
    (run
        (handle broken registry)
        (some socket ∷ some socket ∷ none ∷ some socket ∷ [])
        (broken_world, [])
      ≡ after_two)
    ↔ Serves (handle broken registry) (socket ∷ socket ∷ []) (broken_world, []) after_two
run-Serves_example =
    run-Serves (handle broken registry) (socket ∷ socket ∷ []) (some socket ∷ []) (broken_world, [])
      after_two

reports-run_example :
    All
      (λ line. line ≢ closed_by_host)
      (run (handle broken registry) (some socket ∷ none ∷ []) (broken_world, [])).1
reports-run_example = reports-run broken registry (socket ∷ []) [] broken_world (refl, tt)
