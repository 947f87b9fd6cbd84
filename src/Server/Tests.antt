-- ===== src/Server/Tests.antt =====
-- A server whose multiplexer is a list of its patterns, run.
use strimzi_canary.Common.{
  ℕ, List, [], Option, none, some, String, Outcome, ok, crash, panicked, Result, value,
}
use strimzi_canary.Common.Maps.{lookup, insert, string_eq}
use strimzi_canary.Status.{StatusService, ConsumingStatus}
use strimzi_canary.Status.Sample.{whole}
use strimzi_canary.Server.{Response, Handler, ServeMux, Reply, replied, not_found, dropped}

abbrev add_new :
    Option Handler → String → Handler → List (String × Handler) → Outcome (List (String × Handler))
add_new none pattern h m = ok (insert pattern h m)
add_new (some old) pattern h m = crash panicked

abbrev reply_with : Outcome Response → Reply
reply_with (ok r) = replied r
reply_with (crash c) = dropped

abbrev reply_of : Option Handler → StatusService → Reply
reply_of none ss = not_found
reply_of (some h) ss = reply_with (h ss)

abbrev listed : ServeMux
listed = record {
  Mux = List (String × Handler);
  new_serve_mux = [];
  handle = λ pattern h m. add_new (lookup pattern m) pattern h m;
  matching = λ m path. lookup path m;
  serve_http = λ m path ss. reply_of (lookup path m) ss;
}

abbrev as_text : ConsumingStatus whole → Result ℕ String
as_text s = value "a status"

abbrev gathered : Handler
gathered ss = ok (record { header = []; body = "the metrics" })
