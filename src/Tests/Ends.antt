-- ===== src/Tests/Ends.antt =====
-- An example of a server process that ends, by `stop` and by a listener that cannot be opened.
use threadserver.Prelude.{ℕ, true, [], Bytes, codes, Result, err}
use threadserver.Boost.Sample.{sample}
use threadserver.Http.Message.{Exception, std_exception}
use threadserver.Listener.{Listener}
use threadserver.Server.{Server}
use threadserver.Server.Lifetime.Serving.{registered}
use threadserver.Tests.Lifetimes.{configuration, loader}

abbrev failing : Listener → Result Exception (Unit {0})
failing l = err (std_exception (codes "in use"))

abbrev server : Server
server = registered sample loader (λ ip port. true) configuration [] []

abbrev code : Bytes → ℕ
code name = 1
